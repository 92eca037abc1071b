-- ===== src/Gateway/Safety.antt =====
-- Which requests are let in.
use startup.Common.{
  ℕ, ◌≤◌, ◌≡◌, refl, ap, Bool, true, false, Option, none, some, List, ltb, arith, Bool-cases,
  Option-cases, inl, inr, Text, truthy, text_eq_iff,
}
use startup.Gateway.{ℤ, Platform, Request}
use startup.Gateway.Message.{signature_version, decode_base64_url, build_canonical_message}
use startup.Gateway.Verifier.{
  Cache, Options, is_configured, Verdict, accepted, failure, distance, replay_key, timestamp_of,
  fields_of, is_signed, admit, check_signature, equals, names_all, check_present, verify_request,
}

abbrev pub is_accepted : Verdict → Bool
is_accepted (accepted unsigned) = true
is_accepted (failure status code) = false

equals-some : (o : Option Text) (s : Text) → equals o s ≡ true → o ≡ some s
equals-some none s h = cc
equals-some (some t) s h = ap some ((text_eq_iff t s).0 h)

module _ (js : Platform) (o : Options) where
  -- The key that is configured has signed the request: its method and its target, for this tool, under
  -- its ID, at a time that is not too far away.
  pub record IsGenuine (req : Request) (now : ℕ) : Type 0 where
    pub id : Text
    pub timestamp : ℤ
    pub message : Text
    pub signature : List ℕ
    pub version : req.version ≡ some signature_version
    pub key : req.key_id ≡ some o.key_id
    pub tool : req.tool_slug ≡ some o.expected_tool_slug
    pub request_id : truthy req.request_id ≡ some id
    pub recent : distance now timestamp ≤ o.max_age_seconds
    pub canonical : build_canonical_message js (fields_of js o req id timestamp) ≡ some message
    pub signed : js.verify message signature ≡ true

  signed_parts :
      (req : Request) (id header : Text) (timestamp : ℤ)
      → is_signed js o req id header timestamp ≡ true
      → (message : Text) × (signature : List ℕ) × (build_canonical_message js
            (fields_of js o req id timestamp)
          ≡ some message)
        × (js.verify message signature ≡ true)
  unfolding is_signed
  signed_parts req id header timestamp h = elim (Option-cases (decode_base64_url js header 64)) [
    | inl e ↦ cc (rw (e, is_signed) at h)
    | inr (signature, e) ↦
        elim (Option-cases (build_canonical_message js (fields_of js o req id timestamp))) [
          | inl f ↦ cc (rw (f, is_signed) at (rw (e, is_signed) at h))
          | inr (message, f) ↦
              (message, signature, f, rw (f, is_signed) at (rw (e, is_signed) at h))
        ]
  ]

  -- What holds of a refusal that leaves the cache as it is, and of what the cache says of a genuine
  -- request, holds of the outcome.
  module _ (req : Request) (now : ℕ) (cache : Cache) (P : Verdict × Cache → Type 0)
      (refused : (status : ℕ) (code : Text) → P (failure status code, cache))
      (let_in : (genuine : IsGenuine req now)
        → P (admit js o (replay_key o.key_id genuine.id) now cache))
      (named : names_all js o req ≡ true) where
    IsGenuine-request :
        (id header : Text) (timestamp : ℤ)
        → truthy req.request_id ≡ some id
        → distance now timestamp ≤ o.max_age_seconds
        → is_signed js o req id header timestamp ≡ true
        → (genuine : IsGenuine req now) × (genuine.id ≡ id)
    unfolding names_all
    IsGenuine-request id header timestamp e recent h =
        let (message, signature, canonical, signed) = signed_parts req id header timestamp h in
        (
          record {
            id = id;
            timestamp = timestamp;
            message = message;
            signature = signature;
            version = equals-some req.version signature_version (ground arith);
            key = equals-some req.key_id o.key_id (ground arith);
            tool = equals-some req.tool_slug o.expected_tool_slug (ground arith);
            request_id = e;
            recent = recent;
            canonical = canonical;
            signed = signed;
          },
          refl,
        )

    signature_outcome :
        (stamp header id : Text)
        → truthy req.request_id ≡ some id
        → P (check_signature js o req stamp header id now cache)
    unfolding check_signature
    signature_outcome stamp header id e = elim (Option-cases (timestamp_of js o stamp)) [
      | inl f ↦ rw (f, check_signature) (refused _ _)
      | inr (timestamp, f) ↦ elim (Bool-cases (ltb o.max_age_seconds (distance now timestamp))) [
        | inl old ↦ rw (f, check_signature) (rw (old, check_signature) (refused _ _))
        | inr recent ↦ elim (Bool-cases (is_signed js o req id header timestamp)) [
          | inr bad ↦
              rw (f, check_signature)
                (rw (recent, check_signature) (rw (bad, check_signature) (refused _ _)))
          | inl good ↦
              let (genuine, same) = IsGenuine-request id header timestamp e (ground arith) good in
              rw (f, check_signature)
                (rw (recent, check_signature)
                  (rw (good, check_signature) (rw (← same) (let_in genuine))))
        ]
      ]
    ]

    present_outcome :
        (stamp header id : Option Text)
        → truthy req.request_id ≡ id
        → P (check_present js o req stamp header id now cache)
    unfolding check_present
    present_outcome none header id e = refused _ _
    present_outcome (some stamp) none id e = refused _ _
    present_outcome (some stamp) (some header) none e = refused _ _
    present_outcome (some stamp) (some header) (some id) e = signature_outcome stamp header id e

  pub outcome :
      (req : Request) (now : ℕ) (cache : Cache) (P : Verdict × Cache → Type 0)
      → is_configured js o ≡ true
      → ((status : ℕ) (code : Text) → P (failure status code, cache))
      → ((genuine : IsGenuine req now) → P (admit js o (replay_key o.key_id genuine.id) now cache))
      → P (verify_request js o req now cache)
  unfolding verify_request
  outcome req now cache P on refused let_in = elim (Bool-cases (names_all js o req)) [
    | inr e ↦ rw (on, verify_request) (rw (e, verify_request) (refused _ _))
    | inl e ↦
        rw (on, verify_request)
          (rw (e, verify_request)
            (present_outcome req now cache P refused let_in e (truthy req.timestamp)
              (truthy req.signature) (truthy req.request_id) refl))
  ]

  -- A verifier that is configured lets in only requests that its key has signed: for this tool, with the
  -- method, the target and the ID of the request, at a time that is not farther away than the age that
  -- is allowed.
  pub accepted-IsGenuine :
      (req : Request) (now : ℕ) (cache : Cache)
      → is_configured js o ≡ true
      → is_accepted (verify_request js o req now cache).0 ≡ true
      → IsGenuine req now
  accepted-IsGenuine req now cache on =
      outcome req now cache (λ r. is_accepted r.0 ≡ true → IsGenuine req now) on
        (λ status code h. cc) (λ genuine h. genuine)
