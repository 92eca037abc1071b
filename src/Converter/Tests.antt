-- ===== src/Converter/Tests.antt =====
-- The catalogue of the converter at concrete inputs.
use startup.Common.{◌+◌, ◌-◌, ◌*◌, ◌≤◌, ◌<◌, [], ascii_lower, arith}
use startup.Converter.Catalog.{page_of}
use startup.Converter.Laws.{page_of-bounded}

page_of-bounded_example :
    let p = page_of ascii_lower 20 45 61 [] in
    ((p.page - 1) * 20 ≤ 45) × (45 < p.page * 20) × (61 ≤ p.pages * 20) × (p.pages * 20 < 61 + 20)
page_of-bounded_example = page_of-bounded ascii_lower 20 45 61 [] (omega arith)
