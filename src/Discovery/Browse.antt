-- ===== src/Discovery/Browse.antt =====
-- `fetchTools`, and the choices that call it.
use startup.Common.{
  ℕ, ◌-◌, ◌*◌, Bool, true, false, not, ◌||◌, Option, none, some, List, [], ◌∷◌, ◌++◌, map, length,
  ltb, if◌then◌else◌, Text, codes,
}
use startup.Json.{Json, num, str}
use startup.Marketplace.{ToolCategory, category_name, ToolListResponse}
use startup.Env.{allow_converter_catalog_fallback}
use startup.Api.Request.{build_query}
use startup.Converter.Catalog.{page_of}
use startup.Discovery.{
  Platform, ConverterReply, unreachable, refused, found, Server, Call, asked_list, asked_converter,
}
use startup.Discovery.Convert.{converter_to_tool}

pub data SortBy : Type 0 where
  popular newest price_low price_high : SortBy

abbrev pub sort_name : SortBy → Text
sort_name popular = codes "popular"
sort_name newest = codes "newest"
sort_name price_low = codes "price_low"
sort_name price_high = codes "price_high"

-- The `useState` variables; the category "all" is `none`. The first page is 1.
pub record Browse : Type 0 where
  pub data_shown : Option ToolListResponse
  pub loading : Bool
  pub error : Option Text
  pub category : Option ToolCategory
  pub sort_by : SortBy
  pub page : ℕ

abbrev pub unavailable : Text
unavailable = codes "The live marketplace catalog is unavailable right now."

unfoldable pub first_browse : Option ToolListResponse → Bool → Browse
first_browse initial_data initial_fetch_failed = record {
  data_shown = initial_data;
  loading = false;
  error = if initial_fetch_failed then some unavailable else none;
  category = none;
  sort_by = newest;
  page = 1;
}

abbrev category_filter : Option ToolCategory → List (Text × Option Json)
category_filter none = []
category_filter (some c) = (codes "category", some (str (category_name c))) ∷ []

abbrev empty_page : ℕ → ToolListResponse
empty_page pg = record { items = []; total = 0; page = pg; limit = 20; pages = 1 }

module _ (js : Platform) where
  unfoldable pub tools_path : Option ToolCategory → SortBy → ℕ → Text
  tools_path cat by pg =
      codes "/tools"
      ++ build_query js.encode js.number_text (
          (codes "sort_by", some (str (sort_name by)))
          ∷ (codes "page", some (num (js.double pg)))
          ∷ (codes "limit", some (num (js.double 20)))
          ∷ category_filter cat)

  abbrev converter_page : ℕ → ℕ → Text
  converter_page limit offset =
      codes "limit="
      ++ (js.number_text (js.double limit)
          ++ (codes "&offset=" ++ js.number_text (js.double offset)))

  -- `none` is an exception.
  abbrev page_found : ℕ → ℕ → ConverterReply → Option ToolListResponse
  page_found limit offset unreachable = none
  page_found limit offset refused = none
  page_found limit offset (found tools total) =
      some (page_of js.to_lower limit offset total (map (converter_to_tool js.to_lower) tools))

  unfoldable pub fetch_from_converter : Server → ℕ → ℕ → Option ToolListResponse × List Call
  fetch_from_converter server limit offset =
      if not (allow_converter_catalog_fallback js.env) then (none, []) else (
        page_found limit offset (server.converter (converter_page limit offset)),
        asked_converter (converter_page limit offset) ∷ [],
      )

  -- The page of the converter, or an empty one.
  abbrev pub or_empty : ℕ → Option ToolListResponse → ToolListResponse
  or_empty pg none = empty_page pg
  or_empty pg (some conv) = if ltb 0 (length conv.items) then conv else empty_page pg

  -- The page that is shown, `none` for the message of an error, and the calls.
  unfoldable pub fetch_tools :
      Server → Option ToolCategory → SortBy → ℕ → Option ToolListResponse × List Call
  fetch_tools server cat by pg = elim (server.list (tools_path cat by pg)) [
    | none ↦ (none, asked_list (tools_path cat by pg) ∷ [])
    | some api_resp ↦
        if ltb 0 (length api_resp.items) || not (allow_converter_catalog_fallback js.env)
        then (some api_resp, asked_list (tools_path cat by pg) ∷ [])
        else let (conv, calls) = fetch_from_converter server 20 ((pg - 1) * 20) in
          (some (or_empty pg conv), asked_list (tools_path cat by pg) ∷ calls)
  ]

unfoldable pub begin_fetch : Browse → Browse
begin_fetch b = record b { loading = true; error = none }

unfoldable pub end_fetch : Option ToolListResponse → Browse → Browse
end_fetch none b = record b { data_shown = none; error = some unavailable; loading = false }
end_fetch (some shown) b = record b { data_shown = some shown; loading = false }

-- What is fetched: a category, an order, a page.
pub record Wanted : Type 0 where
  pub category : Option ToolCategory
  pub sort_by : SortBy
  pub page : ℕ

unfoldable pub handle_category : Option ToolCategory → Browse → Browse × Wanted
handle_category cat b = (
  begin_fetch (record b { category = cat; page = 1 }),
  record { category = cat; sort_by = b.sort_by; page = 1 },
)

unfoldable pub handle_sort : SortBy → Browse → Browse × Wanted
handle_sort by b = (
  begin_fetch (record b { sort_by = by; page = 1 }),
  record { category = b.category; sort_by = by; page = 1 },
)

unfoldable pub handle_page : ℕ → Browse → Browse × Wanted
handle_page p b = (
  begin_fetch (record b { page = p }),
  record { category = b.category; sort_by = b.sort_by; page = p },
)
