-- ===== src/Demo/FaultLaws.antt =====
-- How far the fault beside the form guards the payload.
use startup.Common.{◌≡◌, refl, true, Option, none, some, List, [], ◌∷◌, arith, is_blank, trim}
use startup.Marketplace.{InputType}
use startup.Demo.{Browser, DemoSchemaField}
use startup.Demo.Payload.{Form, build_payload, payload_of, fields_payload}
use startup.Demo.Defaults.{validation_error, fault_in, input_fault, fault_of_json}

module _ (js : Browser) where
  payload_of-blank :
      (form : Form js) (type : Option InputType)
      → input_fault js form type ≡ none
      → payload_of js form type ≡ none
      → (type ≡ some InputType.json) × (is_blank (trim form.json_value) ≡ true)
  unfolding payload_of input_fault fault_of_json
  payload_of-blank form (some InputType.json) h e = (refl, ground arith)
  payload_of-blank form (some InputType.image) h e = cc
  payload_of-blank form (some InputType.file) h e = cc
  payload_of-blank form (some InputType.csv) h e = cc
  payload_of-blank form (some InputType.url) h e = cc
  payload_of-blank form (some InputType.text) h e = cc
  payload_of-blank form none h e = cc

  fields_payload-blank :
      (form : Form js) (fields : List DemoSchemaField)
      → fault_in js form fields ≡ none
      → fields_payload js form fields ≡ none
      → (form.input_type ≡ some InputType.json) × (is_blank (trim form.json_value) ≡ true)
  unfolding fault_in fields_payload
  fields_payload-blank form [] h e = payload_of-blank form form.input_type h e
  fields_payload-blank form (field ∷ fields) h e = cc

  -- If no fault is shown beside the form and yet no payload can be built, the tool takes JSON and
  -- the text that is entered for it is blank.
  pub build_payload-blank :
      (form : Form js)
      → validation_error js form ≡ none
      → build_payload js form ≡ none
      → (form.input_type ≡ some InputType.json) × (is_blank (trim form.json_value) ≡ true)
  unfolding validation_error build_payload
  build_payload-blank form h e = fields_payload-blank form form.dynamic_fields h e
