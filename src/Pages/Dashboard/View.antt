-- ===== src/Pages/Dashboard/View.antt =====
-- frontend/src/pages/Dashboard.tsx: what the page draws beside its charts, and what its clicks do. An
-- amount is drawn as a number; the share of the refunds, which is rounded to a text, is left out.
use cloudscale_commerce.Prelude.{
  ℕ, ◌+◌, ◌/◌, ◌≡◌, ◌∙◌, Bool, true, false, if◌then◌else◌, Option, none, some, List, [], ◌∷◌, map,
  foldl, String, str_eq, arith,
}
use cloudscale_commerce.Number.{Number}
use cloudscale_commerce.Api.Auth.{User}
use cloudscale_commerce.Pages.Answers.{or_else}
use cloudscale_commerce.Pages.Dashboard.{
  TimeRange, days7, days30, months12, Period, mock_datasets, AnalyticsResponse, Dashboard,
  Aggregates, spent, refunded, fetch_analytics, fetched, aggregates,
}

pub data Event (N : Type 0) : Type 0 where
  choose_range : TimeRange → Event N
  sync : Event N
  answered : Option (AnalyticsResponse N) → Event N
  drill : String → Event N
  close : Event N

pub step : {N : Type 0} → Dashboard N → Event N → Dashboard N
step s (choose_range range) = record s { time_range = range }
step s sync = fetch_analytics s
step s (answered answer) = fetched answer s
step s (drill metric) = record s { drill_down_metric = some metric }
step s close = record s { drill_down_metric = none }

is_range : TimeRange → TimeRange → Bool
is_range days7 days7 = true
is_range days30 days30 = true
is_range months12 months12 = true
is_range _ _ = false

pub record Card (N : Type 0) : Type 0 where
  pub title : String
  pub value : N
  pub subtitle : String
  pub badge_text : String
  pub metric : String  -- what a click drills down to

pub record View (N : Type 0) : Type 0 where
  pub name : String
  pub chips : List (String × Bool)
  pub is_spinning : Bool
  pub cards : List (Card N)
  pub is_bar_chart : Bool
  pub breakdown : Option (List (String × ℕ))

-- The number of a period in the breakdown of a metric; `Math.ceil(d.spend / 15)` is on whole numbers.
breakdown_of : String → Period → ℕ
breakdown_of metric d =
    if str_eq metric "spending"
    then d.spend
    else if str_eq metric "refunds"
    then d.refund
    else (d.spend + 14) / 15

pub breakdown : Option String → List Period → Option (List (String × ℕ))
unfolding breakdown_of
breakdown none periods = none
breakdown (some metric) periods =
    if str_eq metric ""
    then none
    else some (map (λ (d : Period). (d.month, breakdown_of metric d)) periods)

full_name : Option User → String
full_name none = "Enterprise User"
full_name (some user) = or_else (some user.full_name) "Enterprise User"

module _ {N : Type 0} ⦃num : Number N⦄ where
  cards : Aggregates N → List (Card N)
  cards totals =
      record {
        title = "Total Spending";
        value = totals.total_spend;
        subtitle = "vs previous period";
        badge_text = "Active";
        metric = "spending";
      }
      ∷ record {
        title = "Checkout Success";
        value = totals.orders_count;
        subtitle = "SLA transaction success rate";
        badge_text = "Healthy";
        metric = "orders";
      }
      ∷ record {
        title = "Refund Deductions";
        value = totals.total_refund;
        subtitle = "from gross spend";
        badge_text = "Controlled";
        metric = "refunds";
      }
      ∷ []

  pub render : Option User → Dashboard N → View N
  unfolding is_range full_name cards breakdown
  render user s = record {
    name = full_name user;
    chips =
        ("7 Days", is_range s.time_range days7)
        ∷ ("30 Days", is_range s.time_range days30)
        ∷ ("12 Months", is_range s.time_range months12)
        ∷ [];
    is_spinning = s.is_refreshing;
    cards = cards (aggregates s.analytics_data s.time_range);
    is_bar_chart = is_range s.time_range days7;
    breakdown = breakdown s.drill_down_metric (mock_datasets s.time_range);
  }

-- The sum of the numbers of a breakdown.
abbrev total : List (String × ℕ) → ℕ
total [] = 0
total (row ∷ rows) = row.1 + total rows

spent_from :
    (periods : List Period) (acc : ℕ)
    → foldl (λ acc curr. acc + curr.spend) acc periods
      ≡ acc + total (map (λ (d : Period). (d.month, breakdown_of "spending" d)) periods)
unfolding breakdown_of
spent_from [] acc = omega arith
spent_from (d ∷ periods) acc = omega (arith, spent_from periods (acc + d.spend))

refunded_from :
    (periods : List Period) (acc : ℕ)
    → foldl (λ acc curr. acc + curr.refund) acc periods
      ≡ acc + total (map (λ (d : Period). (d.month, breakdown_of "refunds" d)) periods)
unfolding breakdown_of
refunded_from [] acc = omega arith
refunded_from (d ∷ periods) acc = omega (arith, refunded_from periods (acc + d.refund))

-- The numbers of the breakdowns of the spending and of the refunds sum up to the totals over the built-in
-- figures.
total-breakdown_of :
    (range : TimeRange)
    → (spent (mock_datasets range)
        ≡ total (map (λ (d : Period). (d.month, breakdown_of "spending" d)) (mock_datasets range)))
      × (refunded (mock_datasets range)
          ≡ total (map (λ (d : Period). (d.month, breakdown_of "refunds" d)) (mock_datasets range)))
unfolding spent refunded
total-breakdown_of range = (
  spent_from (mock_datasets range) 0 ∙ omega arith,
  refunded_from (mock_datasets range) 0 ∙ omega arith,
)
