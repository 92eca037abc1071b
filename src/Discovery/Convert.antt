-- ===== src/Discovery/Convert.antt =====
-- `converterToTool`, the page's own version of `toTool` of lib/converterTools.ts, whose parts that
-- are word for word the same are taken from there.
use startup.Common.{false, Option, none, some, is_some, List, [], ◌∷◌, if◌then◌else◌, Text, codes}
use startup.Json.{Json, arr, obj, member, end}
use startup.Marketplace.{
  Tool, ToolCategory, nlp, computer_vision, data_analysis, generation, automation, draft, royalty,
  InputType, OutputType,
}
use startup.Converter.{Endpoint, mentions_one, request_body_of, fields_of}
use startup.Converter.Catalog.{tagline_of, documentation_of, example_output}

pub record ConverterTool : Type 0 where
  pub id : Text
  pub slug : Text
  pub repo_url : Text
  pub name : Text
  pub language : Text
  pub description : Text
  pub endpoints : List Endpoint
  pub setup_notes : Text
  pub created_at : Text

-- The description, in lower case.
unfoldable pub category_from_description : Text → ToolCategory
category_from_description d =
    if mentions_one d (
      codes "nlp"
      ∷ codes "language model"
      ∷ codes "text"
      ∷ codes "sentiment"
      ∷ codes "summariz"
      ∷ [])
    then nlp
    else if mentions_one d
        (codes "image" ∷ codes "vision" ∷ codes "object detect" ∷ codes "ocr" ∷ [])
    then computer_vision
    else if mentions_one d (
        codes "data"
        ∷ codes "analytics"
        ∷ codes "forecast"
        ∷ codes "ml"
        ∷ codes "machine learn"
        ∷ [])
    then data_analysis
    else if mentions_one d (codes "generat" ∷ codes "diffusion" ∷ codes "music" ∷ codes "art" ∷ [])
    then generation
    else automation

module _ (to_lower : Text → Text) where
  -- The schema of the entries of a request body.
  schema_of : List (Text × Text) → Option Json
  schema_of [] = none
  schema_of (entry ∷ rest) =
      some (obj (member (codes "fields") (arr (fields_of to_lower (entry ∷ rest))) end))

  unfoldable pub build_input_schema : List Endpoint → Option Json
  unfolding schema_of
  build_input_schema endpoints = schema_of (request_body_of to_lower (some endpoints))

  unfoldable pub converter_to_tool : ConverterTool → Tool
  converter_to_tool c =
      let input_schema = build_input_schema c.endpoints in
      record {
        id = c.id;
        seller_id = codes "converter";
        seller = record {
          id = codes "converter";
          display_name = c.name;
          avatar_url = none;
          username = c.slug;
        };
        name = c.name;
        slug = c.slug;
        tagline = tagline_of c.description;
        description = c.description;
        category = category_from_description (to_lower c.description);
        status = draft;
        ownership_type = royalty;
        input_type = some (if is_some input_schema then InputType.json else InputType.text);
        output_type = some OutputType.json;
        input_schema = input_schema;
        output_schema = example_output c.endpoints;
        environment_variables = none;
        source_file_tree = none;
        price_per_request = none;
        one_time_price = none;
        demo_url = none;
        api_endpoint = none;
        docker_image_uri = none;
        github_url = some c.repo_url;
        source_s3_key = none;
        config_s3_key = none;
        entry_command = none;
        port = none;
        processing_error = none;
        documentation = documentation_of c.endpoints;
        avg_response_time_ms = none;
        total_requests = 0;
        uptime_percentage = none;
        is_featured = false;
        view_count = 0;
        created_at = c.created_at;
        updated_at = c.created_at;
      }
