-- ===== src/Demo/PayloadLaws.antt =====
-- What a payload holds of the values that passed the check.
use startup.Common.{
  ◌≡◌, refl, true, false, Option, none, some, is_some, List, [], ◌∷◌, arith, All, Bool-cases,
  Option-cases, inl, inr, Text, text_eq, text_eq_refl, is_blank, trim,
}
use startup.Json.{
  Json, null, bool, num, str, arr, obj, Members, end, member, lookup_member, to_text, coalesce,
}
use startup.Demo.{DemoSchemaField, Browser, text_of, DemoFieldType, number, file, url, string}
use startup.Demo.Fields.{is_file, has_text, is_filled, validate_dynamic_fields}
use startup.Demo.FieldLaws.{AllOk, validate_dynamic_fields_iff}
use startup.Demo.Payload.{
  set_member, normalize_field_value, normalize_value, trimmed_value, number_of, sent_value,
  add_field, add_fields, Form, build_payload,
}

abbrev pub Has : Text → Members → Type 0
Has name members = is_some (lookup_member name members) ≡ true

set_member-Has :
    (name : Text) (value : Json) (members : Members) → Has name (set_member name value members)
unfolding set_member lookup_member
set_member-Has name value end = rw (text_eq_refl name) refl
set_member-Has name value (member key old rest) = elim (Bool-cases (text_eq key name)) [
  | inl e ↦ ground arith
  | inr e ↦ ground (arith, set_member-Has name value rest)
]

set_member-Has_other :
    (name key : Text) (value : Json) (members : Members)
    → Has name members
    → Has name (set_member key value members)
unfolding set_member lookup_member
set_member-Has_other name key value end h = cc
set_member-Has_other name key value (member k old rest) h = elim (Bool-cases (text_eq k key)) [
  | inl e ↦ ground arith
  | inr e ↦ ground (arith, set_member-Has_other name key value rest)
]

module _ (js : Browser) where
  sent_value-text :
      (value : Option Json) → has_text js value ≡ true → is_some (sent_value js value) ≡ true
  unfolding has_text sent_value text_of coalesce to_text trim
  sent_value-text none h = cc
  sent_value-text (some null) h = cc
  sent_value-text (some (bool b)) h = refl
  sent_value-text (some (num n)) h = refl
  sent_value-text (some (str [])) h = cc
  sent_value-text (some (str (c ∷ s))) h = refl
  sent_value-text (some (arr items)) h = refl
  sent_value-text (some (obj members)) h = refl

  number_of-some :
      (s : Text) → is_blank s ≡ false → is_some (sent_value js (number_of js (some (str s)))) ≡ true
  unfolding sent_value number_of
  number_of-some [] h = cc
  number_of-some (c ∷ s) h = refl

  sent_value-number :
      (value : Option Json)
      → has_text js value ≡ true
      → is_some (sent_value js (number_of js (trimmed_value js value))) ≡ true
  unfolding has_text sent_value trimmed_value number_of text_of coalesce to_text trim
  sent_value-number none h = cc
  sent_value-number (some null) h = cc
  sent_value-number (some (bool b)) h = refl
  sent_value-number (some (num n)) h = refl
  sent_value-number (some (str s)) h = number_of-some (trim s) (ground arith)
  sent_value-number (some (arr items)) h = refl
  sent_value-number (some (obj members)) h = refl

  -- A value with a text is sent, whatever the type of its field, but for files.
  sent_value-filled :
      (type : DemoFieldType) (name : Text) (value : Option Json)
      → is_file type ≡ false
      → is_filled js type value ≡ true
      → is_some (sent_value js (normalize_value js type name value)) ≡ true
  unfolding normalize_value is_filled
  sent_value-filled file name value f h = cc
  sent_value-filled number name value f h = sent_value-number value h
  sent_value-filled string name value f h = sent_value-text value h
  sent_value-filled url name value f h = sent_value-text value h

  module _ (value : Members) where
    add_field-Has_other :
        (name : Text) (field : DemoSchemaField) (payload : Members)
        → Has name payload
        → Has name (add_field js value field payload)
    unfolding add_field
    add_field-Has_other name field payload h =
        elim (Option-cases
          (sent_value js (normalize_field_value js field (lookup_member field.name value)))) [
            | inl e ↦ rw (e, add_field) h
            | inr (sent, e) ↦
                rw (e, add_field) (set_member-Has_other name field.name sent payload h)
          ]

    add_field-Has :
        (field : DemoSchemaField) (payload : Members)
        → is_some (sent_value js (normalize_field_value js field (lookup_member field.name value)))
          ≡ true
        → Has field.name (add_field js value field payload)
    unfolding add_field
    add_field-Has field payload h =
        elim (Option-cases
          (sent_value js (normalize_field_value js field (lookup_member field.name value)))) [
            | inl e ↦ cc (rw e at h)
            | inr (sent, e) ↦ rw (e, add_field) (set_member-Has field.name sent payload)
          ]

    add_fields-Has_other :
        (name : Text) (fields : List DemoSchemaField) (payload : Members)
        → Has name payload
        → Has name (add_fields js value fields payload)
    unfolding add_fields
    add_fields-Has_other name [] payload h = h
    add_fields-Has_other name (field ∷ fields) payload h =
        add_fields-Has_other name fields _ (add_field-Has_other name field payload h)

    -- The payload holds each of the fields that are required and no files.
    abbrev pub Sends : Members → List DemoSchemaField → Type 0
    Sends payload fields =
        All (λ field. field.required ≡ true → is_file field.type ≡ false → Has field.name payload)
          fields

    add_fields-Sends :
        (fields : List DemoSchemaField) (payload : Members)
        → AllOk js fields value
        → Sends (add_fields js value fields payload) fields
    unfolding add_fields normalize_field_value
    add_fields-Sends [] payload h = tt
    add_fields-Sends (field ∷ fields) payload (ok, h) = (
      λ required no_file. add_fields-Has_other field.name fields _ (
          add_field-Has field payload
            (sent_value-filled field.type field.name _ no_file (ok.filled required))),
      add_fields-Sends fields _ h,
    )

  -- Once the check of the fields finds no fault, the payload is built without an exception, and it
  -- holds a value for every field that is required and takes no file.
  pub build_payload-Sends :
      (form : Form js) (first : DemoSchemaField) (more : List DemoSchemaField)
      → form.dynamic_fields ≡ first ∷ more
      → validate_dynamic_fields js (first ∷ more) form.dynamic_value ≡ none
      → (payload : Members) × (build_payload js form ≡ some (obj payload))
        × Sends form.dynamic_value payload (first ∷ more)
  unfolding build_payload
  build_payload-Sends form first more e h = (
    add_fields js form.dynamic_value (first ∷ more) end,
    rw (e, build_payload) refl,
    add_fields-Sends form.dynamic_value (first ∷ more) end
        ((validate_dynamic_fields_iff js (first ∷ more) form.dynamic_value).0 h).0,
  )
