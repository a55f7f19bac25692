-- ===== src/Pages/Dashboard.antt =====
-- frontend/src/pages/Dashboard.tsx: the built-in figures of a time range, the totals over them and over
-- what the backend answers, and the file of the export before it is encoded as an address.
pub mod View
use Prim.Native.String
use cloudscale_commerce.Prelude.{
  ℕ, ◌+◌, Bool, true, false, Option, none, some, List, [], ◌∷◌, map, foldl, String,
}
use cloudscale_commerce.Number.{Number}

pub data TimeRange : Type 0 where
  days7 days30 months12 : TimeRange

pub record Period : Type 0 where
  pub month : String
  pub spend : ℕ
  pub refund : ℕ

abbrev period : String → (spend refund : ℕ) → Period
period month spend refund = record { month = month; spend = spend; refund = refund }

pub mock_datasets : TimeRange → List Period
mock_datasets days7 =
    period "Mon" 40 5
    ∷ period "Tue" 95 10
    ∷ period "Wed" 80 20
    ∷ period "Thu" 140 15
    ∷ period "Fri" 210 40
    ∷ period "Sat" 160 10
    ∷ period "Sun" 220 25
    ∷ []
mock_datasets days30 =
    period "Week 1" 450 30
    ∷ period "Week 2" 620 50
    ∷ period "Week 3" 580 40
    ∷ period "Week 4" 710 90
    ∷ []
mock_datasets months12 =
    period "Jan" 120 10
    ∷ period "Feb" 350 25
    ∷ period "Mar" 210 15
    ∷ period "Apr" 450 50
    ∷ period "May" 600 45
    ∷ period "Jun" 320 20
    ∷ period "Jul" 510 35
    ∷ period "Aug" 420 30
    ∷ period "Sep" 680 70
    ∷ period "Oct" 590 55
    ∷ period "Nov" 820 90
    ∷ period "Dec" 950 110
    ∷ []

-- The fields of the answer that the totals read.
pub record AnalyticsResponse (N : Type 0) : Type 0 where
  pub total_orders : N
  pub total_revenue : N
  pub average_order_value : N

pub record Dashboard (N : Type 0) : Type 0 where
  pub time_range : TimeRange
  pub is_refreshing : Bool
  pub drill_down_metric : Option String
  pub analytics_data : Option (AnalyticsResponse N)

pub initial : {N : Type 0} → Dashboard N
initial = record {
  time_range = days30;
  is_refreshing = false;
  drill_down_metric = none;
  analytics_data = none;
}

pub record Aggregates (N : Type 0) : Type 0 where
  pub total_spend : N
  pub total_refund : N
  pub orders_count : N
  pub aov : N
  pub growth : String

usual_orders : TimeRange → ℕ
usual_orders days7 = 18
usual_orders days30 = 64
usual_orders months12 = 842

growth_of : TimeRange → String
growth_of days7 = "+4.2%"
growth_of days30 = "+14.8%"
growth_of months12 = "+28.4%"

unfoldable pub spent : List Period → ℕ
spent periods = foldl (λ acc curr. acc + curr.spend) 0 periods

unfoldable pub refunded : List Period → ℕ
refunded periods = foldl (λ acc curr. acc + curr.refund) 0 periods

module _ {N : Type 0} where
  -- The start of `fetchAnalytics` and its end, which keeps the old figures where the call fails.
  pub fetch_analytics : Dashboard N → Dashboard N
  fetch_analytics s = record s { is_refreshing = true }

  pub fetched : Option (AnalyticsResponse N) → Dashboard N → Dashboard N
  fetched none s = record s { is_refreshing = false }
  fetched (some answer) s = record s { analytics_data = some answer; is_refreshing = false }

module _ {N : Type 0} ⦃num : Number N⦄ where
  -- The number of orders of a built-in range is not nought, so `ordersCount || 1` is that number.
  pub aggregates : Option (AnalyticsResponse N) → TimeRange → Aggregates N
  unfolding usual_orders growth_of spent refunded mock_datasets
  aggregates none range =
      let total_spend = num.decimal (spent (mock_datasets range)) 0 in
      let orders_count = num.decimal (usual_orders range) 0 in
      record {
        total_spend = total_spend;
        total_refund = num.decimal (refunded (mock_datasets range)) 0;
        orders_count = orders_count;
        aov = num.div total_spend orders_count;
        growth = growth_of range;
      }
  aggregates (some answer) range = record {
    total_spend = answer.total_revenue;
    total_refund = num.decimal (refunded (mock_datasets range)) 0;
    orders_count = answer.total_orders;
    aov = answer.average_order_value;
    growth = growth_of range;
  }

-- `shown` is the decimal text of a number.
module _ (shown : ℕ → String) where
  csv_row : Period → String
  csv_row e =
      String.◌++◌ e.month
        (String.◌++◌ "," (String.◌++◌ (shown e.spend) (String.◌++◌ "," (shown e.refund))))

  join_lines : List String → String
  join_lines [] = ""
  join_lines (line ∷ []) = line
  join_lines (line ∷ next ∷ rest) = String.◌++◌ line (String.◌++◌ "\n" (join_lines (next ∷ rest)))

  pub csv_content : TimeRange → String
  unfolding csv_row join_lines mock_datasets
  csv_content range = String.◌++◌ "data:text/csv;charset=utf-8," (
      String.◌++◌ "Period,Spending,Refunds"
        (String.◌++◌ "\n" (join_lines (map csv_row (mock_datasets range)))))
