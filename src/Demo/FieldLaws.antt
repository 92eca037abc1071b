-- ===== src/Demo/FieldLaws.antt =====
-- What the values of a demo satisfy once its check finds no fault.
use startup.Common.{
  ◌≡◌, ◌↔◌, refl, true, false, Option, none, List, [], ◌∷◌, arith, All, Option-cases, inl, inr,
  codes, text_eq,
}
use startup.Json.{Json, Members, lookup_member}
use startup.Demo.{
  DemoSchemaField, Browser, is_truthy, text_of, is_valid_url, is_likely_property_listing_url,
}
use startup.Demo.Fields.{
  is_url, is_number, has_listing_url_and_image_inputs, is_filled, is_bad_number, field_fault,
  first_fault, has_source, validate_dynamic_fields,
}

module _ (js : Browser) where
  -- What a field asks of its value.
  pub record FieldOk (field : DemoSchemaField) (value : Option Json) : Type 0 where
    pub filled : field.required ≡ true → is_filled js field.type value ≡ true
    pub valid :
        is_url field.type ≡ true
        → is_truthy js value ≡ true
        → is_valid_url js (text_of js value) ≡ true
    pub likely :
        is_url field.type ≡ true
        → text_eq field.name (codes "url") ≡ true
        → is_truthy js value ≡ true
        → is_likely_property_listing_url js (text_of js value) ≡ true
    pub in_range : is_number field.type ≡ true → is_bad_number js value ≡ false

  field_fault-FieldOk :
      (field : DemoSchemaField) (value : Option Json)
      → field_fault js field value ≡ none
      → FieldOk field value
  unfolding field_fault
  field_fault-FieldOk field value h = record {
    filled = λ r. ground arith;
    valid = λ u t. ground arith;
    likely = λ u n t. ground arith;
    in_range = λ n. ground arith;
  }

  FieldOk-field_fault :
      (field : DemoSchemaField) (value : Option Json)
      → FieldOk field value
      → field_fault js field value ≡ none
  unfolding field_fault
  FieldOk-field_fault field value ok = ground (arith, ok.filled, ok.valid, ok.likely, ok.in_range)

  -- Every field is content with the value under its name.
  abbrev pub AllOk : List DemoSchemaField → Members → Type 0
  AllOk fields value = All (λ field. FieldOk field (lookup_member field.name value)) fields

  first_fault-AllOk :
      (fields : List DemoSchemaField) (value : Members)
      → first_fault js value fields ≡ none
      → AllOk fields value
  unfolding first_fault
  first_fault-AllOk [] value h = tt
  first_fault-AllOk (field ∷ fields) value h =
      elim (Option-cases (field_fault js field (lookup_member field.name value))) [
        | inl e ↦ (
          field_fault-FieldOk field _ e,
          first_fault-AllOk fields value (rw (e, first_fault) at h),
        )
        | inr (fault, e) ↦ cc (rw (e, first_fault) at h)
      ]

  AllOk-first_fault :
      (fields : List DemoSchemaField) (value : Members)
      → AllOk fields value
      → first_fault js value fields ≡ none
  unfolding first_fault
  AllOk-first_fault [] value h = refl
  AllOk-first_fault (field ∷ fields) value (ok, h) =
      rw (FieldOk-field_fault field _ ok, first_fault) (AllOk-first_fault fields value h)

  -- The check lets the values of a demo pass exactly if every field is content with its value (a
  -- required one is filled, a URL is valid and, where it is the listing, on a known site, a number
  -- is finite and at least 1) and, where the demo takes a URL or images, one of the two is entered.
  pub validate_dynamic_fields_iff :
      (fields : List DemoSchemaField) (value : Members)
      → (validate_dynamic_fields js fields value ≡ none) ↔ (
          AllOk fields value
          × (has_listing_url_and_image_inputs fields ≡ true → has_source js value ≡ true))
  unfolding validate_dynamic_fields
  validate_dynamic_fields_iff fields value = (
    λ h. (first_fault-AllOk fields value (ground arith), λ both. ground arith),
    λ (ok, source). ground (arith, source, AllOk-first_fault fields value ok),
  )
