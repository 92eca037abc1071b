-- ===== src/Api/Headers.antt =====
-- The headers of a request, read back by name, and the query string.
use startup.Common.{
  truthy, ℕ, ◌≡◌, refl, ◌∙◌, ◌&&◌, Option, none, some, List, [], ◌∷◌, ◌++◌, arith, true, false,
  if◌then◌else◌, Bool-cases, inl, inr, Text, codes, text_eq, text_eq_iff,
}
use mathlib.Core.Option
use startup.Json.{Json}
use startup.Api.Request.{
  Entropy, RequestOptions, request_id_header, chosen_request_id, request_headers, set_param,
  is_given, param_text, query_params,
}

-- The value under a name, in a list of headers or of parameters.
abbrev pub value_of : Text → List (Text × Text) → Option Text
value_of name [] = none
value_of name ((k, v) ∷ rest) = if text_eq k name then some v else value_of name rest

abbrev json_type : Option Json → Option Text
json_type none = none
json_type (some body) = some (codes "application/json")

module _ (entropy : Entropy) (options : RequestOptions) where
  -- The three headers that a request may have.
  abbrev pub HasHeaders : Option Json → Option Text → Option Text → Type 0
  HasHeaders body token id =
      (value_of (codes "Authorization") (request_headers entropy body options)
        ≡ Option.map (λ t. codes "Bearer " ++ t) token)
      × (value_of (codes "Content-Type") (request_headers entropy body options) ≡ json_type body)
      × (value_of request_id_header (request_headers entropy body options) ≡ id)

  headers_cases :
      (body : Option Json) (token id : Option Text)
      → truthy options.token ≡ token
      → truthy (chosen_request_id entropy options) ≡ id
      → HasHeaders body token id
  unfolding request_headers request_id_header codes text_eq
  headers_cases none none none p q = ground arith
  headers_cases none none (some i) p q = ground arith
  headers_cases none (some t) none p q = ground arith
  headers_cases none (some t) (some i) p q = ground arith
  headers_cases (some b) none none p q = ground arith
  headers_cases (some b) none (some i) p q = ground arith
  headers_cases (some b) (some t) none p q = ground arith
  headers_cases (some b) (some t) (some i) p q = ground arith

  -- A request carries the token of its options as a bearer token, unless it is missing or empty; it
  -- is declared as JSON exactly if it has a body; and it has the request ID that was chosen for it,
  -- unless that is missing or empty.
  pub request_headers_lem :
      (body : Option Json)
      → HasHeaders body (truthy options.token) (truthy (chosen_request_id entropy options))
  request_headers_lem body =
      headers_cases body (truthy options.token) (truthy (chosen_request_id entropy options)) refl
        refl

-- The last value that is given under a key.
abbrev pub last_given : (ℕ → Text) → Text → List (Text × Option Json) → Option Text → Option Text
last_given number name [] before = before
last_given number name ((key, val) ∷ rest) before =
    last_given number name rest
      (if is_given val && text_eq key name then some (param_text number val) else before)

-- All values under a name, and the list of a value that may be missing.
abbrev pub values_under : Text → List (Text × Text) → List Text
values_under name [] = []
values_under name ((k, v) ∷ rest) =
    if text_eq k name then v ∷ values_under name rest else values_under name rest

abbrev pub listed : Option Text → List Text
listed none = []
listed (some v) = v ∷ []

-- A name that another key is set beside keeps its values.
set_param-other :
    (key name v : Text) (qs : List (Text × Text))
    → text_eq key name ≡ false
    → values_under name (set_param key v qs) ≡ values_under name qs
unfolding set_param
set_param-other key name v [] h = rw h refl
set_param-other key name v ((k, w) ∷ rest) h = ground (
  arith,
  text_eq_iff k key,
  text_eq_iff k name,
  text_eq_iff key name,
  set_param-other key name v rest h,
)

-- A name that has at most one value is left with the one that is set.
set_param-head :
    (key name v k w : Text) (rest : List (Text × Text)) (before : Option Text)
    → text_eq key name ≡ true
    → text_eq k name ≡ true
    → values_under name ((k, w) ∷ rest) ≡ listed before
    → values_under name (set_param key v ((k, w) ∷ rest)) ≡ v ∷ []
unfolding set_param
set_param-head key name v k w rest none same e h = cc (rw e at h)
set_param-head key name v k w rest (some u) same e h =
    let alone : v ∷ values_under name rest ≡ v ∷ [] = cc (rw e at h) in
    ground (arith, text_eq_iff k key, text_eq_iff k name, text_eq_iff key name)

set_param-same :
    (key name v : Text) (qs : List (Text × Text)) (before : Option Text)
    → text_eq key name ≡ true
    → values_under name qs ≡ listed before
    → values_under name (set_param key v qs) ≡ v ∷ []
unfolding set_param
set_param-same key name v [] before h k = rw h refl
set_param-same key name v ((k, w) ∷ rest) before same only =
    let keys : key ≡ name = (text_eq_iff key name).0 same in
    elim (Bool-cases (text_eq k name)) [
      | inl e ↦ set_param-head key name v k w rest before same e only
      | inr e ↦
          let later = set_param-same key name v rest before same (rw e at only) in
          let other : text_eq k key ≡ false = rw keys e in rw other (rw e later)
    ]

query_params-from :
    (number : ℕ → Text) (name : Text) (params : List (Text × Option Json)) (qs : List (Text × Text))
    (before : Option Text)
    → values_under name qs ≡ listed before
    → values_under name (query_params number params qs)
      ≡ listed (last_given number name params before)
unfolding query_params
query_params-from number name [] qs before h = h
query_params-from number name ((key, val) ∷ rest) qs before h = elim (Bool-cases (is_given val)) [
  | inr e ↦ rw e (query_params-from number name rest qs before h)
  | inl e ↦ elim (Bool-cases (text_eq key name)) [
    | inl same ↦ rw e (
        rw same (
          query_params-from number name rest _ (some (param_text number val))
            (set_param-same key name (param_text number val) qs before same h)))
    | inr other ↦ rw e (
        rw other (
          query_params-from number name rest _ before
            (set_param-other key name (param_text number val) qs other ∙ h)))
  ]
]

-- `buildQuery` has under each name one entry, with the last value that is neither missing, null nor
-- the empty text, or no entry, if no such value is given.
pub query_params_lem :
    (number : ℕ → Text) (name : Text) (params : List (Text × Option Json))
    → values_under name (query_params number params [])
      ≡ listed (last_given number name params none)
query_params_lem number name params = query_params-from number name params [] none refl
