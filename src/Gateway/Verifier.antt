-- ===== src/Gateway/Verifier.antt =====
-- `createGatewayVerifier`: its configuration, `verifyRequest`, and the cache of the requests that it
-- has let in, a Map in the order in which its keys were set.
use startup.Common.{
  ℕ, ◌+◌, ◌-◌, Bool, true, false, not, ◌&&◌, Option, none, some, List, [], ◌∷◌, ◌++◌, length, keep,
  ltb, leb, if◌then◌else◌, Text, codes, text_eq, truthy, is_some, is_blank, drop,
}
use startup.Gateway.{ℤ, pos, negsuc, Platform, Request}
use startup.Gateway.Message.{
  Fields, is_key_id, signature_version, decode_base64_url, build_canonical_message,
}

abbrev pub Cache : Type 0
Cache = List (Text × ℕ)

pub record Options : Type 0 where
  pub public_key : Option Text
  pub key_id : Text
  pub expected_tool_slug : Text
  pub max_age_seconds : ℕ
  pub allow_unsigned : Bool
  pub max_replay_entries : ℕ

-- `!Number.isInteger(…)` is left out: the age is a natural number.
unfoldable pub is_configured : Platform → Options → Bool
is_configured js o = elim (truthy o.public_key) [
  | none ↦ false
  | some key ↦
      is_key_id o.key_id
      && (not (is_blank o.expected_tool_slug)
          && (leb 30 o.max_age_seconds
              && (leb o.max_age_seconds 900 && is_some (decode_base64_url js key 32))))
]

pub data Verdict : Type 0 where
  accepted : (unsigned : Bool) → Verdict
  failure : (status_code : ℕ) (code : Text) → Verdict

abbrev pub invalid_signature : Verdict
invalid_signature = failure 401 (codes "INVALID_GATEWAY_SIGNATURE")

-- `Math.abs(currentTime - timestamp)`
unfoldable pub distance : ℕ → ℤ → ℕ
distance now (pos n) = (now - n) + (n - now)
distance now (negsuc n) = now + n + 1

unfoldable pub remove_expired_replay_entries : Cache → ℕ → Cache
remove_expired_replay_entries cache now = keep (λ entry. not (leb entry.1 now)) cache

-- `replayCache.get(key) || 0`
unfoldable pub expires_at : Text → Cache → ℕ
expires_at key [] = 0
expires_at key ((k, t) ∷ rest) = if text_eq k key then t else expires_at key rest

-- The loop removes the oldest entries as long as there are too many; an empty cache ends it.
unfoldable pub evict_replay_entries : Cache → ℕ → Cache
evict_replay_entries cache max_entries = drop (length cache + 1 - max_entries) cache

-- `set` of a key that is not there.
unfoldable pub remember : Text → ℕ → Cache → Cache
remember key t cache = cache ++ (key, t) ∷ []

abbrev pub equals : Option Text → Text → Bool
equals none s = false
equals (some t) s = text_eq t s

-- `${receivedKeyId}:${requestId}`
unfoldable pub replay_key : Text → Text → Text
replay_key key_id request_id = key_id ++ (codes ":" ++ request_id)

module _ (js : Platform) (o : Options) where
  -- The header of the timestamp, as a number that is written the same.
  unfoldable pub timestamp_of : Text → Option ℤ
  timestamp_of header = elim (js.safe_integer header) [
    | none ↦ none
    | some t ↦ if text_eq (js.integer_text t) header then some t else none
  ]

  abbrev pub fields_of : Request → Text → ℤ → Fields
  fields_of req request_id timestamp = record {
    method = req.method;
    request_target = req.original_url;
    timestamp = timestamp;
    request_id = request_id;
    tool_slug = o.expected_tool_slug;
    key_id = o.key_id;
  }

  -- The signature is one of the canonical message.
  unfoldable pub is_signed : Request → Text → Text → ℤ → Bool
  is_signed req request_id header timestamp = elim (decode_base64_url js header 64) [
    | none ↦ false
    | some signature ↦ elim (build_canonical_message js (fields_of req request_id timestamp)) [
      | none ↦ false
      | some message ↦ js.verify message signature
    ]
  ]

  -- The cache is asked, and remembers the request.
  unfoldable pub admit : Text → ℕ → Cache → Verdict × Cache
  admit key now cache =
      let fresh = remove_expired_replay_entries cache now in
      if ltb now (expires_at key fresh)
      then (failure 409 (codes "GATEWAY_REQUEST_REPLAYED"), fresh)
      else (
        accepted false,
        remember key (now + o.max_age_seconds) (evict_replay_entries fresh o.max_replay_entries),
      )

  -- `verifyRequest` behind the test of the headers.
  unfoldable pub check_signature : Request → Text → Text → Text → ℕ → Cache → Verdict × Cache
  check_signature req timestamp_header header request_id now cache =
      elim (timestamp_of timestamp_header) [
        | none ↦ (invalid_signature, cache)
        | some timestamp ↦
            if ltb o.max_age_seconds (distance now timestamp)
            then (failure 401 (codes "GATEWAY_SIGNATURE_EXPIRED"), cache)
            else if not (is_signed req request_id header timestamp)
            then (invalid_signature, cache)
            else admit (replay_key o.key_id request_id) now cache
      ]

  -- The headers name the version, the key and the tool.
  unfoldable pub names_all : Request → Bool
  names_all req =
      equals req.version signature_version
      && (equals req.key_id o.key_id && equals req.tool_slug o.expected_tool_slug)

  unfoldable pub check_present :
      Request → Option Text → Option Text → Option Text → ℕ → Cache → Verdict × Cache
  check_present req (some t) (some s) (some id) now cache = check_signature req t s id now cache
  check_present req _ _ _ now cache = (invalid_signature, cache)

  unfoldable pub verify_request : Request → ℕ → Cache → Verdict × Cache
  unfolding check_present
  verify_request req now cache =
      if not (is_configured js o)
      then (
        if o.allow_unsigned
            then accepted true
            else failure 503 (codes "GATEWAY_AUTH_NOT_CONFIGURED"),
        cache,
      )
      else if not (names_all req)
      then (invalid_signature, cache)
      else check_present req (truthy req.timestamp) (truthy req.signature) (truthy req.request_id)
          now cache
