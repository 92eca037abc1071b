-- ===== src/Dashboard/MixLaws.antt =====
-- The revenue mix of a seller loses no revenue.
use startup.Common.{
  ℕ, ◌≤◌, ◌<◌, ◌≡◌, refl, ◌∙◌, Bool, Option, some, List, [], ◌∷◌, map, keep, arith, All, ltb,
  Bool-cases, inl, inr, sort-All, sort-Ordered, Ordered, total, total-sort, keep-All,
}
use startup.Dashboard.{SellerToolSummary, SellerDashboardResponse, Platform, cents_from_decimal}
use startup.Dashboard.Series.{of_summary}
use startup.Dashboard.Builders.{MixSlice, sells_more, mix_slice, build_revenue_mix}

abbrev pub NotLess : MixSlice → MixSlice → Type 0
NotLess x y = y.value ≤ x.value

abbrev pub IsSold : MixSlice → Type 0
IsSold s = 0 < s.value

abbrev is_sold : MixSlice → Bool
is_sold s = ltb 0 s.value

abbrev pub value_of : MixSlice → ℕ
value_of s = s.value

total-keep : (slices : List MixSlice) → total value_of (keep is_sold slices) ≡ total value_of slices
total-keep [] = refl
total-keep (s ∷ slices) = elim (Bool-cases (is_sold s)) [
  | inl e ↦ rw e (omega (arith, total-keep slices))
  | inr e ↦ rw e (ground (arith, total-keep slices))
]

module _ (js : Platform) where
  -- What a tool has earned this month, in cents.
  abbrev pub earned : SellerToolSummary → ℕ
  earned tool = cents_from_decimal js (some tool.revenue_this_month)

  total-mix_slice :
      (tools : List SellerToolSummary)
      → total value_of (map (mix_slice js) tools) ≡ total earned tools
  unfolding mix_slice
  total-mix_slice [] = refl
  total-mix_slice (tool ∷ tools) = omega (arith, total-mix_slice tools)

  -- The slices of the revenue mix add up to the revenue of all tools of the seller, each is more than
  -- nothing, and they stand in the order of their values, the largest first.
  pub build_revenue_mix_lem :
      (summary : Option SellerDashboardResponse)
      → (total value_of (build_revenue_mix js summary)
          ≡ total earned (of_summary (λ s. s.tools) summary))
        × All IsSold (build_revenue_mix js summary)
        × Ordered NotLess (build_revenue_mix js summary)
  unfolding build_revenue_mix
  build_revenue_mix_lem summary =
      let tools = of_summary (λ s. s.tools) summary in
      let sold = keep is_sold (map (mix_slice js) tools) in
      (
        total-sort sells_more value_of sold
            ∙ total-keep (map (mix_slice js) tools)
            ∙ total-mix_slice tools,
        sort-All sells_more IsSold sold
            (keep-All IsSold is_sold (λ s e. ground arith) (map (mix_slice js) tools)),
        sort-Ordered sells_more NotLess (λ x a e. ground arith) (λ x a e. ground arith)
            (λ x y z p q. omega arith) sold,
      )
