-- ===== src/Discovery/Sources.antt =====
-- Where the tools of the page come from.
use startup.Discovery.{Call, asked_discover, asked_list, asked_converter}

-- A request to the API, and not to the converter.
abbrev pub IsApi : Call → Type 0
IsApi (asked_discover query limit) = Unit
IsApi (asked_list path) = Unit
IsApi (asked_converter query) = ⊥
