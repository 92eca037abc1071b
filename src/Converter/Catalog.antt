-- ===== src/Converter/Catalog.antt =====
-- `toTool`, `fetchConverterTools` and `fetchConverterTool`.
use startup.Common.{
  true, ℕ, ◌+◌, ◌-◌, ◌/◌, Bool, false, not, Option, none, some, is_some, List, [], ◌∷◌, ◌++◌, map,
  ltb, length, take, if◌then◌else◌, ◌or_else◌, Text, codes, join,
}
use startup.Json.{Json, obj, member, end}
use startup.Marketplace.{Tool, ToolListResponse, draft, royalty, InputType, OutputType}
use startup.Env.{
  Variables, Url, allow_converter_catalog_fallback, converter_url_of, should_skip_build_time_fetch,
}
use startup.Converter.{Endpoint, ConverterTool, language_to_category, build_input_schema}

-- The sign `…`
abbrev ellipsis : ℕ
ellipsis = 0x2026

pub tagline_of : Text → Text
tagline_of description =
    if ltb 120 (length description) then take 117 description ++ ellipsis ∷ [] else description

-- `### ${ep.method} ${ep.path}\n${ep.summary}`
endpoint_text : Endpoint → Text
endpoint_text ep = codes "### " ++ (ep.method ++ (codes " " ++ (ep.path ++ (10 ∷ ep.summary))))

pub documentation_of : List Endpoint → Option Text
documentation_of [] = none
documentation_of (e ∷ rest) =
    some (codes "## Endpoints" ++ (10 ∷ 10 ∷ join (10 ∷ 10 ∷ []) (map endpoint_text (e ∷ rest))))

pub example_output : List Endpoint → Option Json
example_output [] = none
example_output (e ∷ rest) = elim e.response_example [
  | none ↦ none
  | some example ↦ some (obj (member (codes "example_output") example end))
]

module _ (to_lower : Text → Text) where
  tool_of : ConverterTool → Text → List Endpoint → Tool
  tool_of c description endpoints =
      let input_schema = build_input_schema to_lower c in
      record {
        id = c.id;
        seller_id = codes "converter";
        seller = record {
          id = codes "converter";
          display_name = c.name or_else c.slug;
          avatar_url = none;
          username = c.slug;
        };
        name = c.name or_else (c.repo_name or_else c.slug);
        slug = c.slug;
        tagline = tagline_of description;
        description = description;
        category = language_to_category (to_lower description);
        status = draft;
        ownership_type = royalty;
        input_type = some (if is_some input_schema then InputType.json else InputType.text);
        output_type = some OutputType.json;
        input_schema = input_schema;
        output_schema = example_output endpoints;
        environment_variables = none;
        source_file_tree = none;
        price_per_request = none;
        one_time_price = none;
        demo_url = none;
        api_endpoint = none;
        docker_image_uri = none;
        github_url = some c.repo_url;
        source_s3_key = none;
        config_s3_key = none;
        entry_command = none;
        port = none;
        processing_error = none;
        documentation = documentation_of endpoints;
        avg_response_time_ms = c.qa_avg_ms;
        total_requests = 0;
        uptime_percentage = none;
        is_featured = false;
        view_count = 0;
        created_at = c.created_at;
        updated_at = c.created_at;
      }

  -- `none`: a TypeError, from `description.toLowerCase()` or from `c.endpoints.length`.
  unfoldable pub to_tool : ConverterTool → Option Tool
  unfolding tool_of tagline_of endpoint_text documentation_of example_output
  to_tool c = elim c.description [
    | none ↦ none
    | some description ↦ elim c.endpoints [
      | none ↦ none
      | some endpoints ↦ some (tool_of c description endpoints)
    ]
  ]

  -- `none` if one of them throws.
  unfoldable pub to_tools : List ConverterTool → Option (List Tool)
  to_tools [] = some []
  to_tools (c ∷ cs) =
      let rest = to_tools cs in
      elim (to_tool c) [
        | none ↦ none
        | some tool ↦ elim rest [ none ↦ none | some tools ↦ some (tool ∷ tools) ]
      ]

  -- The page that is made of an answer, for a limit that is not 0.
  unfoldable pub page_of : ℕ → ℕ → ℕ → List Tool → ToolListResponse
  page_of limit offset total tools = record {
    items = tools;
    total = total;
    page = offset / limit + 1;
    limit = limit;
    pages = (total + (limit - 1)) / limit;
  }

-- What the converter answers: no success, or its tools and their number.
pub data Reply : Type 0 where
  refused : Reply
  found : (tools : List ConverterTool) (total : ℕ) → Reply

-- How `fetchConverterTools` ends: with one of its three errors, a TypeError, or a page.
pub data Listed : Type 0 where
  disabled skipped unavailable unreadable : Listed
  listed : ToolListResponse → Listed

module _ (to_lower : Text → Text) (parse_url : Text → Option Url) (env : Variables) where
  page_or_error : ℕ → ℕ → ℕ → Option (List Tool) → Listed
  page_or_error limit offset total none = unreadable
  page_or_error limit offset total (some tools) = listed (page_of to_lower limit offset total tools)

  list_reply : ℕ → ℕ → Reply → Listed
  list_reply limit offset refused = unavailable
  list_reply limit offset (found tools total) =
      page_or_error limit offset total (to_tools to_lower tools)

  -- The result, and whether the converter was called.
  unfoldable pub fetch_converter_tools : ℕ → ℕ → Reply → Listed × Bool
  unfolding list_reply page_or_error
  fetch_converter_tools limit offset reply =
      if not (allow_converter_catalog_fallback env)
      then (disabled, false)
      else if should_skip_build_time_fetch parse_url env (converter_url_of env)
      then (skipped, false)
      else (list_reply limit offset reply, true)

  tool_reply : Option ConverterTool → Option (Option Tool)
  tool_reply none = some none
  tool_reply (some c) = elim (to_tool to_lower c) [ none ↦ none | some tool ↦ some (some tool) ]

  -- A tool by its slug, where an answer that is no success is `none`. The result `none` is a
  -- TypeError, `some none` is null.
  unfoldable pub fetch_converter_tool : Option ConverterTool → Option (Option Tool) × Bool
  unfolding tool_reply
  fetch_converter_tool reply =
      if not (allow_converter_catalog_fallback env)
      then (some none, false)
      else if should_skip_build_time_fetch parse_url env (converter_url_of env)
      then (some none, false)
      else (tool_reply reply, true)
