-- ===== src/Demo/Defaults.antt =====
-- The fault that is shown beside the form, and the values that an automatic run fills in.
use startup.Common.{
  ℕ, Bool, not, ◌&&◌, ◌||◌, Option, none, some, List, [], ◌∷◌, ◌++◌, if◌then◌else◌, any, ltb,
  length, Text, codes, text_eq, is_blank, is_some, trim, includes,
}
use startup.Marketplace.{InputType}
use startup.Json.{Json, str, num, Members, lookup_member}
use startup.Demo.{DemoSchemaField, DemoFieldType, string, number, file, url, Browser, is_valid_url}
use startup.Demo.Fields.{validate_dynamic_fields}
use startup.Demo.Payload.{Form, set_member}

module _ (js : Browser) where
  unfoldable pub fault_of_json : Text → Option Text
  fault_of_json json_value =
      if not (is_blank (trim json_value)) && not (is_some (js.parse_json json_value))
      then some (codes "Fix the JSON before running the demo.")
      else none

  unfoldable pub missing : Text → Bool → Option Text
  missing message given = if given then none else some message

  unfoldable pub input_fault : Form js → Option InputType → Option Text
  unfolding fault_of_json missing
  input_fault form none = none
  input_fault form (some InputType.json) = fault_of_json form.json_value
  input_fault form (some InputType.url) =
      missing (codes "Enter a valid URL before running the demo.")
        (is_blank form.url_value || is_valid_url js form.url_value)
  input_fault form (some InputType.image) =
      missing (codes "Select an image before running the demo.") (is_some form.image_value)
  input_fault form (some InputType.file) =
      missing (codes "Upload a file before running the demo.") (is_some form.file_value)
  input_fault form (some InputType.csv) =
      missing (codes "Upload a file before running the demo.") (is_some form.file_value)
  input_fault form (some InputType.text) =
      missing (codes "Enter some text before running the demo.")
        (not (is_blank (trim form.text_value)))

  unfoldable pub fault_in : Form js → List DemoSchemaField → Option Text
  fault_in form [] = input_fault form form.input_type
  fault_in form (field ∷ fields) = validate_dynamic_fields js (field ∷ fields) form.dynamic_value

  unfoldable pub validation_error : Form js → Option Text
  unfolding fault_in input_fault
  validation_error form = fault_in form form.dynamic_fields

  -- One of the words is in the name.
  names_one : Text → List Text → Bool
  names_one name words = any (λ word. includes word name) words

  -- `def hello():` and its body; unit 10 ends the line.
  sample_code : Text
  sample_code = codes "def hello():" ++ (10 ∷ codes "    print('Hello, World!')")

  placeholder_or_sample : Text → Option Text → Text
  placeholder_or_sample name none = codes "sample input"
  placeholder_or_sample name (some placeholder) =
      if ltb 3 (length placeholder) && not (text_eq placeholder name)
      then placeholder
      else codes "sample input"

  default_text : Text → DemoSchemaField → Text
  unfolding names_one placeholder_or_sample sample_code
  default_text n field =
      if names_one n (codes "text" ∷ codes "content" ∷ codes "input" ∷ codes "body" ∷ [])
      then codes "The quick brown fox jumps over the lazy dog. This is an automated demo trial."
      else if names_one n (codes "query" ∷ codes "question" ∷ codes "search" ∷ codes "prompt" ∷ [])
      then codes "What can this tool do? Demonstrate its capabilities with this sample query."
      else if names_one n (codes "message" ∷ codes "msg" ∷ [])
      then codes "Hello! This is an automated demo message."
      else if names_one n (codes "code" ∷ codes "script" ∷ codes "source" ∷ [])
      then sample_code
      else if names_one n (codes "description" ∷ codes "desc" ∷ [])
      then codes "A sample product for automated demo testing purposes."
      else if names_one n (codes "name" ∷ codes "title" ∷ [])
      then codes "Demo Sample"
      else if names_one n (codes "email" ∷ [])
      then codes "demo@example.com"
      else if names_one n (codes "lang" ∷ codes "language" ∷ [])
      then codes "en"
      else placeholder_or_sample field.name field.placeholder

  -- The double 42.
  abbrev forty_two : ℕ
  forty_two = 0x4045000000000000

  default_for : DemoFieldType → DemoSchemaField → Option Json
  unfolding default_text
  default_for file field = none
  default_for url field = none
  default_for number field = some (num forty_two)
  default_for string field = some (str (default_text (js.to_lower field.name) field))

  unfoldable pub smart_default : DemoSchemaField → Option Json
  unfolding default_for
  smart_default field = default_for field.type field

  -- `schema.qa_inputs?.[field.name] ?? smartDefault(field)`
  fill_of : Members → DemoSchemaField → Option Json
  fill_of qa_inputs field = elim (lookup_member field.name qa_inputs) [
    | some value ↦ some value
    | none ↦ smart_default field
  ]

  -- The loop of the effect; an input of the tests is a text or a number.
  unfoldable pub fills : Members → List DemoSchemaField → Members → Members
  unfolding fill_of
  fills qa_inputs [] filled = filled
  fills qa_inputs (field ∷ fields) filled = fills qa_inputs fields (elim (fill_of qa_inputs field) [
    | none ↦ filled
    | some value ↦ set_member field.name value filled
  ])
