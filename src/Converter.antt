-- ===== src/Converter.antt =====
-- apps/web/src/lib/converterTools.ts: the tools of the converter, as the catalogue shows them where
-- it falls back on the converter. A property that the source asks with `?.` or `??` may be missing.
pub mod Catalog
pub mod Laws
mod Tests
use startup.Common.{
  ℕ, Bool, true, false, not, ◌&&◌, ◌||◌, Option, none, some, is_some, List, [], ◌∷◌, ◌++◌, map, ltb,
  length, take, any, if◌then◌else◌, ◌or_else◌, Text, codes, includes, split, trim, join, truthy,
  is_blank,
}
use startup.Json.{Json, bool, num, str, arr, obj, Items, nil, cons, Members, end, member}
use startup.Marketplace.{
  Tool, ToolCategory, nlp, computer_vision, data_analysis, generation, automation, ToolStatus,
  draft, OwnershipType, royalty, InputType, OutputType,
}
use startup.Account.{first_of}
use startup.Demo.{humanize}

pub record Endpoint : Type 0 where
  pub method : Text
  pub path : Text
  pub summary : Text
  pub request_body : Option (List (Text × Text))
  pub response_example : Option Json

pub record ConverterTool : Type 0 where
  pub id : Text
  pub slug : Text
  pub repo_url : Text
  pub name : Option Text
  pub repo_name : Option Text
  pub description : Option Text
  pub endpoints : Option (List Endpoint)
  pub created_at : Text
  pub qa_inputs : Option Json
  pub qa_avg_ms : Option ℕ
  pub qa_certified : Option Bool
  pub review_status : Option Text

abbrev pub mentions_one : Text → List Text → Bool
mentions_one d words = any (λ w. includes w d) words

-- The description, in lower case.
unfoldable pub language_to_category : Text → ToolCategory
language_to_category d =
    if mentions_one d (
      codes "nlp"
      ∷ codes "language model"
      ∷ codes "text"
      ∷ codes "sentiment"
      ∷ codes "summariz"
      ∷ [])
    then nlp
    else if mentions_one d
        (codes "image" ∷ codes "vision" ∷ codes "object detect" ∷ codes "ocr" ∷ [])
    then computer_vision
    else if mentions_one d (
        codes "data"
        ∷ codes "analytics"
        ∷ codes "forecast"
        ∷ codes "ml"
        ∷ codes "machine learn"
        ∷ [])
    then data_analysis
    else if mentions_one d (
        codes "generat"
        ∷ codes "diffusion"
        ∷ codes "music"
        ∷ codes "art"
        ∷ codes "create content"
        ∷ [])
    then generation
    else automation

-- The two dashes that end a type in its description.
abbrev em_dash : ℕ
em_dash = 0x2014

abbrev en_dash : ℕ
en_dash = 0x2013

first_piece : ℕ → Text → Text
first_piece sep s = first_of (split sep s) or_else []

module _ (to_lower : Text → Text) where
  field_type : Text → Text
  field_type d =
      if includes (codes "file") d
      then codes "file"
      else if includes (codes "url") d
      then codes "url"
      else if includes (codes "number") d || includes (codes "int") d
      then codes "number"
      else codes "string"

  unfoldable pub field_of : Text × Text → Json
  unfolding field_type first_piece
  field_of (name, type_desc) = obj (
      member (codes "name") (str name) (
        member (codes "type") (str (field_type (to_lower type_desc))) (
          member (codes "label") (str (humanize name)) (
            member (codes "placeholder")
              (str (trim (first_piece en_dash (first_piece em_dash type_desc))))
              (member (codes "required") (bool true) end)))))

  pub fields_of : List (Text × Text) → Items
  fields_of [] = nil
  fields_of (entry ∷ rest) = cons (field_of entry) (fields_of rest)

  -- `schema.fields`, where there are any.
  with_fields : List (Text × Text) → Members → Members
  unfolding fields_of
  with_fields [] rest = rest
  with_fields (entry ∷ more) rest = member (codes "fields") (arr (fields_of (entry ∷ more))) rest

  with_some : Text → Option Json → Members → Members
  with_some name none rest = rest
  with_some name (some value) rest = member name value rest

  pub request_body_of : Option (List Endpoint) → List (Text × Text)
  request_body_of none = []
  request_body_of (some []) = []
  request_body_of (some (e ∷ rest)) = e.request_body or_else []

  abbrev json_bool : Option Bool → Option Json
  json_bool none = none
  json_bool (some b) = some (bool b)

  abbrev json_num : Option ℕ → Option Json
  json_num none = none
  json_num (some n) = some (num n)

  abbrev json_str : Option Text → Option Json
  json_str none = none
  json_str (some s) = some (str s)

  unfoldable pub build_input_schema : ConverterTool → Option Json
  unfolding with_fields with_some request_body_of
  build_input_schema c =
      if not (ltb 0 (length (request_body_of c.endpoints)))
        && (not (c.qa_certified or_else false) && not (is_some c.qa_inputs))
      then none
      else some (
          obj (
            with_fields (request_body_of c.endpoints) (
              with_some (codes "qa_inputs") c.qa_inputs (
                with_some (codes "qa_certified") (json_bool c.qa_certified) (
                  with_some (codes "qa_avg_ms") (json_num c.qa_avg_ms)
                    (with_some (codes "review_status") (json_str (truthy c.review_status)) end))))))
