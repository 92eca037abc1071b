-- ===== src/Demo/Fields.antt =====
-- `validateDynamicFields`: the first fault of the values that are entered for the fields.
use startup.Common.{
  Bool, true, false, not, ◌&&◌, ◌||◌, Option, none, some, List, [], ◌∷◌, ◌++◌, if◌then◌else◌, any,
  Text, codes, text_eq, is_blank, trim,
}
use startup.Json.{Json, arr, cons, nil, Members, lookup_member}
use startup.Demo.{
  DemoFieldType, number, file, url, DemoSchemaField, Browser, humanize, is_truthy, text_of,
  is_valid_url, is_likely_property_listing_url,
}

abbrev pub is_file : DemoFieldType → Bool
is_file file = true
is_file _ = false

abbrev pub is_url : DemoFieldType → Bool
is_url url = true
is_url _ = false

abbrev pub is_number : DemoFieldType → Bool
is_number number = true
is_number _ = false

-- `fields.find((field) => field.name === "images" && field.type === "file")` finds a field.
unfoldable pub has_image_field : List DemoSchemaField → Bool
has_image_field fields =
    any (λ field. text_eq field.name (codes "images") && is_file field.type) fields

unfoldable pub has_url_field : List DemoSchemaField → Bool
has_url_field fields = any (λ field. text_eq field.name (codes "url") && is_url field.type) fields

unfoldable pub has_listing_url_and_image_inputs : List DemoSchemaField → Bool
has_listing_url_and_image_inputs fields = has_image_field fields && has_url_field fields

module _ (js : Browser) where
  -- `Array.isArray(value) ? value.length > 0 : Boolean(value)`
  unfoldable pub has_image : Option Json → Bool
  has_image (some (arr nil)) = false
  has_image (some (arr (cons item items))) = true
  has_image value = is_truthy js value

  unfoldable pub has_text : Option Json → Bool
  has_text value = not (is_blank (trim (text_of js value)))

  -- A required field has a value.
  unfoldable pub is_filled : DemoFieldType → Option Json → Bool
  is_filled type value = if is_file type then is_truthy js value else has_text value

  -- A number is refused if it is not finite or below 1. A missing value has no text.
  unfoldable pub is_bad_number : Option Json → Bool
  is_bad_number none = false
  is_bad_number (some value) =
      has_text (some value)
      && (not (js.is_finite (js.number value)) || js.is_below_one (js.number value))

  -- The body of the loop.
  unfoldable pub field_fault : DemoSchemaField → Option Json → Option Text
  field_fault field value =
      if field.required && not (is_filled field.type value)
      then some (humanize field.name ++ codes " is required.")
      else if is_url field.type && (is_truthy js value && not (is_valid_url js (text_of js value)))
      then some (humanize field.name ++ codes " must be a valid URL.")
      else if is_url field.type
          && (text_eq field.name (codes "url")
              && (is_truthy js value && not (is_likely_property_listing_url js (text_of js value))))
      then some (codes "Use a Zillow, Redfin, Realtor, or MLS listing URL for this demo.")
      else if is_number field.type && is_bad_number value
      then some (humanize field.name ++ codes " must be at least 1.")
      else none

  unfoldable pub first_fault : Members → List DemoSchemaField → Option Text
  first_fault value [] = none
  first_fault value (field ∷ fields) =
      let later = first_fault value fields in
      elim (field_fault field (lookup_member field.name value)) [
        | some fault ↦ some fault
        | none ↦ later
      ]

  -- One of the two is entered, where the demo asks for a URL or images.
  unfoldable pub has_source : Members → Bool
  has_source value =
      has_image (lookup_member (codes "images") value)
      || has_text (lookup_member (codes "url") value)

  unfoldable pub validate_dynamic_fields : List DemoSchemaField → Members → Option Text
  validate_dynamic_fields fields value =
      if has_listing_url_and_image_inputs fields && not (has_source value)
      then some (codes "Provide either a property URL or an image before running the demo.")
      else first_fault value fields
