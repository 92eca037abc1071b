-- ===== src/Demo/Payload.antt =====
-- `buildPayload` and `normalizeFieldValue`.
use startup.Common.{
  Option, none, some, List, [], ◌∷◌, if◌then◌else◌, ◌or_else◌, Text, codes, text_eq, trim,
}
use startup.Marketplace.{InputType}
use startup.Json.{
  Json, null, num, str, arr, obj, Items, nil, cons, Members, end, member, get, lookup_member,
}
use startup.Demo.{DemoFieldType, string, number, file, url, DemoSchemaField, Browser, is_truthy}

pub record DemoFileValue : Type 0 where
  pub name : Text
  pub content : Text
  pub mime_type : Text

pub record DemoImageValue : Type 0 where
  pub base64 : Text
  pub preview_url : Text
  pub filename : Text
  pub mime_type : Option Text

-- `JSON.stringify` leaves out a member that is undefined.
pub optional_member : Text → Option Json → Members → Members
optional_member name none rest = rest
optional_member name (some value) rest = member name value rest

-- `payload[name] = value`
unfoldable pub set_member : Text → Json → Members → Members
set_member name value end = member name value end
set_member name value (member key old rest) =
    if text_eq key name then member key value rest else member key old (set_member name value rest)

module _ (js : Browser) where
  -- `typeof value === "string" ? value.trim() : value`
  unfoldable pub trimmed_value : Option Json → Option Json
  trimmed_value (some (str s)) = some (str (trim s))
  trimmed_value value = value

  unfoldable pub number_of : Option Json → Option Json
  number_of none = none
  number_of (some null) = none
  number_of (some (str [])) = none
  number_of (some raw) = some (num (js.number raw))

  -- `image.mimeType || "image/jpeg"`
  image_type : Json → Json
  image_type image =
      if is_truthy js (get (codes "mimeType") image)
      then (get (codes "mimeType") image or_else null)
      else str (codes "image/jpeg")

  -- An image of the list; the list holds objects only.
  sent_image : Json → Json
  unfolding optional_member image_type
  sent_image image = obj (
      optional_member (codes "filename") (get (codes "filename") image) (
        optional_member (codes "base64") (get (codes "base64") image)
          (member (codes "mimetype") (image_type image) end)))

  sent_images : Items → Items
  unfolding sent_image
  sent_images nil = nil
  sent_images (cons image rest) = cons (sent_image image) (sent_images rest)

  images_of : Option Json → Option Json
  unfolding sent_images
  images_of (some (arr (cons image rest))) = some (arr (sent_images (cons image rest)))
  images_of _ = none

  file_of : Option Json → Option Json
  unfolding optional_member
  file_of none = none
  file_of (some value) =
      if is_truthy js (some value)
      then some (
          obj (
            optional_member (codes "filename") (get (codes "name") value) (
              optional_member (codes "base64") (get (codes "content") value)
                (optional_member (codes "mimetype") (get (codes "mimeType") value) end))))
      else none

  unfoldable pub normalize_value : DemoFieldType → Text → Option Json → Option Json
  unfolding number_of trimmed_value images_of file_of
  normalize_value number name value = number_of (trimmed_value value)
  normalize_value file name value =
      if text_eq name (codes "images") then images_of value else file_of value
  normalize_value string name value = value
  normalize_value url name value = value

  unfoldable pub normalize_field_value : DemoSchemaField → Option Json → Option Json
  unfolding normalize_value
  normalize_field_value field value = normalize_value field.type field.name value

  -- `normalized !== undefined && normalized !== null && normalized !== ""`
  unfoldable pub sent_value : Option Json → Option Json
  sent_value none = none
  sent_value (some null) = none
  sent_value (some (str [])) = none
  sent_value (some value) = some value

  unfoldable pub add_field : Members → DemoSchemaField → Members → Members
  add_field value field payload =
      elim (sent_value (normalize_field_value field (lookup_member field.name value))) [
        | none ↦ payload
        | some normalized ↦ set_member field.name normalized payload
      ]

  unfoldable pub add_fields : Members → List DemoSchemaField → Members → Members
  add_fields value [] payload = payload
  add_fields value (field ∷ fields) payload =
      add_fields value fields (add_field value field payload)

  pub record Form : Type 0 where
    pub input_type : Option InputType
    pub text_value : Text
    pub json_value : Text
    pub url_value : Text
    pub file_value : Option DemoFileValue
    pub image_value : Option DemoImageValue
    pub dynamic_value : Members
    pub dynamic_fields : List DemoSchemaField

  pub input_of : Text → Json
  input_of s = obj (member (codes "input") (str s) end)

  pub file_input : Text → Text → Text → Json
  file_input content name mime_type = obj (
      member (codes "input") (str content)
        (member (codes "filename") (str name) (member (codes "mime_type") (str mime_type) end)))

  pub file_payload : Option DemoFileValue → Json
  file_payload none = file_input [] [] []
  file_payload (some f) = file_input f.content f.name f.mime_type

  pub image_payload : Option DemoImageValue → Json
  image_payload none = input_of []
  image_payload (some image) = input_of image.base64

  unfoldable pub payload_of : Form → Option InputType → Option Json
  payload_of form (some InputType.json) = js.parse_json form.json_value
  payload_of form (some InputType.image) = some (image_payload form.image_value)
  payload_of form (some InputType.file) = some (file_payload form.file_value)
  payload_of form (some InputType.csv) = some (file_payload form.file_value)
  payload_of form (some InputType.url) = some (input_of form.url_value)
  payload_of form (some InputType.text) = some (input_of form.text_value)
  payload_of form none = some (input_of form.text_value)

  unfoldable pub fields_payload : Form → List DemoSchemaField → Option Json
  unfolding payload_of image_payload file_payload input_of file_input
  fields_payload form [] = payload_of form form.input_type
  fields_payload form (field ∷ fields) =
      some (obj (add_fields form.dynamic_value (field ∷ fields) end))

  -- `none`: `JSON.parse` throws.
  unfoldable pub build_payload : Form → Option Json
  unfolding fields_payload
  build_payload form = fields_payload form form.dynamic_fields
