-- ===== src/Dashboard/Series.antt =====
-- The charts of a seller over the last days.
use startup.Common.{
  ℕ, zero, suc, ◌+◌, ◌-◌, Option, none, some, List, [], ◌∷◌, map, if◌then◌else◌, ◌or_else◌, Text,
  text_eq,
}
use startup.Dashboard.{
  SellerRevenuePoint, SellerRequestsPoint, SellerLatencyPoint, SellerDashboardResponse, RangeKey,
  range_days, Platform, cents_from_decimal, iso_date_key, day_label,
}

-- `map.get(key)` of a Map made of pairs: a later pair overwrites an earlier one.
unfoldable pub map_get : Text → List (Text × ℕ) → Option ℕ
map_get key [] = none
map_get key ((k, v) ∷ rest) = elim (map_get key rest) [
  | some later ↦ some later
  | none ↦ if text_eq k key then some v else none
]

-- `Array.from({ length: n }, (_, index) => f(index))`, from an index on.
unfoldable pub array_from {ℓ} : {A : Type ℓ} → (ℕ → A) → ℕ → ℕ → List A
array_from f index zero = []
array_from f index (suc n) = f index ∷ array_from f (index + 1) n

pub record DatedValue : Type 0 where
  pub day : Text
  pub value : ℕ

pub record RevPoint : Type 0 where
  pub day : Text
  pub revenue : ℕ

pub record RequestPoint : Type 0 where
  pub day : Text
  pub requests : ℕ

pub record LatencyPoint : Type 0 where
  pub day : Text
  pub latency : ℕ

-- A list of the answer, empty where there is none.
abbrev pub of_summary {ℓ} :
    {A : Type ℓ} → (SellerDashboardResponse → List A) → Option SellerDashboardResponse → List A
of_summary f none = []
of_summary f (some summary) = f summary

module _ (js : Platform) where
  -- The day at an index of the chart, in days before today.
  abbrev pub days_ago : RangeKey → ℕ → ℕ
  days_ago range index = range_days range - 1 - index

  abbrev revenue_point : RangeKey → List (Text × ℕ) → ℕ → RevPoint
  revenue_point range by_day i = record {
    day = day_label js range (days_ago range i);
    revenue = map_get (iso_date_key js (days_ago range i)) by_day or_else 0;
  }

  unfoldable pub build_revenue_series : RangeKey → Option SellerDashboardResponse → List RevPoint
  build_revenue_series range summary =
      array_from
        (revenue_point range (
          map (λ (p : SellerRevenuePoint). (p.date, cents_from_decimal js (some p.amount)))
            (of_summary (λ s. s.revenue_chart_data) summary)))
        0 (range_days range)

  abbrev dated_value : RangeKey → List (Text × ℕ) → ℕ → DatedValue
  dated_value range by_day index = record {
    day = day_label js range (days_ago range index);
    value = map_get (iso_date_key js (days_ago range index)) by_day or_else 0;
  }

  unfoldable pub build_dated_series : RangeKey → List (Text × ℕ) → List DatedValue
  build_dated_series range by_day = array_from (dated_value range by_day) 0 (range_days range)

  unfoldable pub build_request_series :
      RangeKey → Option SellerDashboardResponse → List RequestPoint
  build_request_series range summary =
      map (λ (p : DatedValue). record { day = p.day; requests = p.value })
        (build_dated_series range (
          map (λ (p : SellerRequestsPoint). (p.date, p.count))
            (of_summary (λ s. s.request_chart_data) summary)))

  unfoldable pub build_latency_series :
      RangeKey → Option SellerDashboardResponse → List LatencyPoint
  build_latency_series range summary =
      map (λ (p : DatedValue). record { day = p.day; latency = p.value })
        (build_dated_series range (
          map (λ (p : SellerLatencyPoint). (p.date, p.avg_response_time_ms))
            (of_summary (λ s. s.latency_chart_data) summary)))
