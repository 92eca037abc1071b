-- ===== src/Converter/Laws.antt =====
-- How the tools of the converter are paged.
use startup.Common.{ℕ, ◌+◌, ◌-◌, ◌*◌, ◌/◌, ◌≤◌, ◌<◌, ◌≡◌, List, arith, Text}
use native.Mathlib.Nat.{div-add-mod', mod-lt}
use startup.Marketplace.{Tool}
use startup.Converter.Catalog.{page_of}

div_bounds : (n m : ℕ) → 0 < m → (n / m * m ≤ n) × (n < n / m * m + m)
div_bounds n m h =
    let parts = div-add-mod' n m in let small = mod-lt n h in (omega arith, omega arith)

page_bounds :
    (q limit offset : ℕ)
    → q * limit ≤ offset
    → offset < q * limit + limit
    → ((q + 1 - 1) * limit ≤ offset) × (offset < (q + 1) * limit)
page_bounds q limit offset low high =
    let back : q + 1 - 1 ≡ q = omega arith in (rw back low, grind arith)

-- For a limit that is not 0, the offset lies on the page that is given, and the pages are as many as
-- the total needs and no more.
pub page_of-bounded :
    (to_lower : Text → Text) (limit offset total : ℕ) (tools : List Tool)
    → 0 < limit
    → let p = page_of to_lower limit offset total tools in
      ((p.page - 1) * limit ≤ offset)
      × (offset < p.page * limit)
      × (total ≤ p.pages * limit)
      × (p.pages * limit < total + limit)
unfolding page_of
page_of-bounded to_lower limit offset total tools h =
    let (low, high) = div_bounds offset limit h in
    let (last_low, last_high) = div_bounds (total + (limit - 1)) limit h in
    let (first, past) = page_bounds (offset / limit) limit offset low high in
    (first, past, omega arith, omega arith)
