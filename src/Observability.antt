-- ===== src/Observability.antt =====
-- frontend/src/lib/observability.ts: what is logged, with the correlation id, and the ratings of the
-- web vitals. `new_id` is what `crypto.randomUUID` gives at the call.
use cloudscale_commerce.Prelude.{
  Bool, if◌then◌else◌, Option, none, some, List, [], ◌∷◌, String, str_eq,
}
use cloudscale_commerce.Number.{Number, nought}

pub data Rating : Type 0 where
  good needs_improvement poor : Rating

pub record Observability (N : Type 0) : Type 0 where
  pub correlation_id : Option String
  pub cls_value : N

-- What is written to the console.
pub data Entry (N : Type 0) : Type 0 where
  web_vital :
      (metric_name : String) (metric_value : N) (rating : Rating) (correlation_id : String)
      → Entry N
  telemetry_error : (message : String) (correlation_id : String) → Entry N

pub record Shift (N : Type 0) : Type 0 where
  pub had_recent_input : Bool
  pub value : N

module _ {N : Type 0} where
  generate_correlation_id : (new_id : String) → Observability N → Observability N
  generate_correlation_id new_id s = record s { correlation_id = some new_id }

  pub get_correlation_id : (new_id : String) → Observability N → Observability N × String
  unfolding generate_correlation_id
  get_correlation_id new_id s = elim s.correlation_id [
    | none ↦ (generate_correlation_id new_id s, new_id)
    | some id ↦ if str_eq id "" then (generate_correlation_id new_id s, new_id) else (s, id)
  ]

  pub log_error : (new_id message : String) → Observability N → Observability N × Entry N
  unfolding get_correlation_id
  log_error new_id message s =
      let got = get_correlation_id new_id s in (got.0, telemetry_error message (got.1))

module _ {N : Type 0} ⦃num : Number N⦄ where
  pub construct : (new_id : String) → Observability N
  unfolding generate_correlation_id
  construct new_id =
      generate_correlation_id new_id (record { correlation_id = none; cls_value = nought })

  between : (needs bad value : N) → Rating
  between needs bad value =
      if num.lt bad value then poor else if num.lt needs value then needs_improvement else good

  pub rating_of : String → N → Rating
  unfolding between
  rating_of name value =
      if str_eq name "LCP"
      then between (num.decimal 2_500 0) (num.decimal 4_000 0) value
      else if str_eq name "FID"
      then between (num.decimal 100 0) (num.decimal 300 0) value
      else if str_eq name "CLS"
      then between (num.decimal 1 1) (num.decimal 25 2) value
      else good

  pub log_metric : (new_id name : String) → N → Observability N → Observability N × Entry N
  unfolding get_correlation_id rating_of
  log_metric new_id name value s =
      let got = get_correlation_id new_id s in
      (got.0, web_vital name value (rating_of name value) (got.1))

  -- The callbacks of the three observers.
  pub on_paints : (new_id : String) → List N → Observability N → Observability N × List (Entry N)
  unfolding log_metric
  on_paints new_id [] s = (s, [])
  on_paints new_id (start_time ∷ []) s =
      let logged = log_metric new_id "LCP" start_time s in (logged.0, logged.1 ∷ [])
  on_paints new_id (start_time ∷ later ∷ entries) s = on_paints new_id (later ∷ entries) s

  pub on_inputs : (new_id : String) → List N → Observability N → Observability N × List (Entry N)
  unfolding log_metric
  on_inputs new_id [] s = (s, [])
  on_inputs new_id (duration ∷ entries) s =
      let logged = log_metric new_id "FID" duration s in
      let rest = on_inputs new_id entries (logged.0) in (rest.0, logged.1 ∷ rest.1)

  shifted : N → List (Shift N) → N
  shifted cls_value [] = cls_value
  shifted cls_value (e ∷ entries) =
      shifted (if e.had_recent_input then cls_value else num.add cls_value e.value) entries

  pub on_shifts : (new_id : String) → List (Shift N) → Observability N → Observability N × Entry N
  unfolding log_metric shifted
  on_shifts new_id entries s =
      let value = shifted s.cls_value entries in
      log_metric new_id "CLS" value (record s { cls_value = value })
