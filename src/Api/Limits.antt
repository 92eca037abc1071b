-- ===== src/Api/Limits.antt =====
-- How a request ends, after three calls of `fetch` at most; only reads are sent again.
use startup.Common.{
  ap, ◌<◌, ◌⊎◌, ◌==◌, none, some, Bool, Option-cases, ℕ, ◌≤◌, ◌≡◌, refl, true, false, Option, List,
  ◌++◌, arith, Bool-cases, inl, inr, Text, codes, text_eq,
}
use startup.Json.{Json}
use startup.Env.{api_base, should_skip_build_time_fetch}
use startup.Api.Errors.{Response, whole, cut_off, stalled, parse_text, parse_response_body}
use startup.Api.Transport.{
  waiting, RequestInit, Fetched, response, aborted, failed, Effect, Outcome, is_read_method,
  Platform, request_with_retry,
}
use startup.Api.Request.{
  Entropy, RequestOptions, request, request_form_data, post_json, post_form_data, put_json,
  patch_json, delete_json,
}
use startup.Api.Retry.{
  fetches, slept_ms, one_call, two_calls, three_calls, outcome_of, is_passing_fault, settled,
  skipped, request_with_retry_lem,
}

abbrev pub is_settled : Option Outcome → Bool
is_settled none = false
is_settled (some waiting) = false
is_settled (some _) = true

abbrev pub is_stalled : Fetched → Bool
is_stalled (response res stalled) = true
is_stalled _ = false

-- It waits for ever, for the body of the n-th call.
abbrev pub WaitsFor : (ℕ → Fetched) → ℕ → Option Outcome × List Effect → Type 0
WaitsFor network n r = (n < fetches r.1) × (is_stalled (network n) ≡ true) × (r.0 ≡ some waiting)

-- The request calls `fetch` and sleeps so often and so long at most, and it ends with a result, unless
-- it waits for ever for a body that never ends.
abbrev pub EndsWithin : (ℕ → Fetched) → ℕ → ℕ → Option Outcome × List Effect → Type 0
EndsWithin network calls ms r =
    ((is_settled r.0 ≡ true) ⊎ ((n : ℕ) × WaitsFor network n r))
    × (fetches r.1 ≤ calls)
    × (slept_ms r.1 ≤ ms)

module _ (js : Platform) (network : ℕ → Fetched) where
  whole-is_settled :
      (res : Response) → is_settled (some (outcome_of js network (response res whole))) ≡ true
  unfolding outcome_of parse_response_body parse_text
  whole-is_settled res = elim (Option-cases (js.parse_json res.body)) [
    | inl e ↦ ground arith
    | inr (body, e) ↦ ground arith
  ]

  outcome_of-cases :
      (f : Fetched)
      → (is_settled (some (outcome_of js network f)) ≡ true)
        ⊎ ((is_stalled f ≡ true) × (outcome_of js network f ≡ waiting))
  unfolding outcome_of parse_response_body
  outcome_of-cases aborted = inl refl
  outcome_of-cases failed = inl refl
  outcome_of-cases (response res stalled) = elim (Bool-cases (res.status == 204)) [
    | inl e ↦ inl (rw e refl)
    | inr e ↦ inr (refl, rw e refl)
  ]
  outcome_of-cases (response res (cut_off message)) = inl (ground arith)
  outcome_of-cases (response res whole) = inl (whole-is_settled res)

  -- The request ends as its n-th call does.
  ends_with :
      (n : ℕ) (effects : List Effect)
      → n < fetches effects
      → (is_settled (some (outcome_of js network (network n))) ≡ true)
        ⊎ ((m : ℕ) × WaitsFor network m (some (outcome_of js network (network n)), effects))
  ends_with n effects lt = elim (outcome_of-cases (network n)) [
    | inl e ↦ inl e
    | inr (stall, e) ↦ inr (n, (lt, stall, ap some e))
  ]

  settled-EndsWithin :
      (input : Text) (init : RequestInit) (timeout_ms : ℕ) (method : Text)
      → EndsWithin network 3 1500 (settled js network input init timeout_ms method)
  unfolding settled
  settled-EndsWithin input init timeout_ms method =
      elim (Bool-cases (is_passing_fault js network method (network 0))) [
        | inr e ↦ rw e (
          ends_with 0 (one_call js network input init timeout_ms) (omega arith),
          omega arith,
          omega arith,
        )
        | inl e ↦ elim (Bool-cases (is_passing_fault js network method (network 1))) [
          | inr f ↦ rw e (
              rw f (
                ends_with 1 (two_calls js network input init timeout_ms) (omega arith),
                omega arith,
                omega arith,
              ))
          | inl f ↦ rw e (
              rw f (
                ends_with 2 (three_calls js network input init timeout_ms) (omega arith),
                omega arith,
                omega arith,
              ))
        ]
      ]

  write-is_passing_fault :
      (method : Text) (f : Fetched)
      → is_read_method method ≡ false
      → is_passing_fault js network method f ≡ false
  unfolding is_passing_fault
  write-is_passing_fault method aborted h = refl
  write-is_passing_fault method failed h = refl
  write-is_passing_fault method (response res read) h = ground arith

  settled-write :
      (input : Text) (init : RequestInit) (timeout_ms : ℕ) (method : Text)
      → is_read_method method ≡ false
      → EndsWithin network 1 0 (settled js network input init timeout_ms method)
  unfolding settled
  settled-write input init timeout_ms method h = rw (write-is_passing_fault method (network 0) h) (
    ends_with 0 (one_call js network input init timeout_ms) (omega arith),
    omega arith,
    omega arith,
  )

  module _ (method path : Text) (init : RequestInit) (timeout_ms : ℕ) where
    request_with_retry-EndsWithin :
        EndsWithin network 3 1500 (request_with_retry js network method path init timeout_ms 3 0)
    request_with_retry-EndsWithin =
        elim (Bool-cases
          (should_skip_build_time_fetch js.parse_url js.env (api_base js.env ++ path))) [
            | inl skip ↦
                rw (skipped js network method path init timeout_ms 2 0 skip)
                  (inl refl, omega arith, omega arith)
            | inr online ↦
                rw (request_with_retry_lem js network method path init timeout_ms online)
                  (settled-EndsWithin (api_base js.env ++ path) init timeout_ms method)
          ]

    request_with_retry-write :
        is_read_method method ≡ false
        → EndsWithin network 1 0 (request_with_retry js network method path init timeout_ms 3 0)
    request_with_retry-write h =
        elim (Bool-cases
          (should_skip_build_time_fetch js.parse_url js.env (api_base js.env ++ path))) [
            | inl skip ↦
                rw (skipped js network method path init timeout_ms 2 0 skip)
                  (inl refl, omega arith, omega arith)
            | inr online ↦
                rw (request_with_retry_lem js network method path init timeout_ms online)
                  (settled-write (api_base js.env ++ path) init timeout_ms method h)
          ]

module _ (js : Platform) (network : ℕ → Fetched) (entropy : Entropy) where
  -- A request, with JSON or with a form, calls `fetch` three times at most and sleeps for a second and
  -- a half at most, whatever the network does; and it ends with a result, unless the body of a call
  -- that it made never ends, for which it then waits. The fuel never runs out.
  pub request-EndsWithin :
      (method path : Text) (body : Option Json) (form : Text) (options : RequestOptions)
      → EndsWithin network 3 1500 (request js network entropy method path body options)
        × EndsWithin network 3 1500 (request_form_data js network entropy method path form options)
  unfolding request request_form_data
  request-EndsWithin method path body form options = (
    request_with_retry-EndsWithin js network method path _ _,
    request_with_retry-EndsWithin js network method path _ _,
  )

  -- A request by a method that does not read calls `fetch` once at most.
  pub request-write :
      (method path : Text) (body : Option Json) (options : RequestOptions)
      → is_read_method method ≡ false
      → EndsWithin network 1 0 (request js network entropy method path body options)
  unfolding request
  request-write method path body options h = request_with_retry-write js network method path _ _ h

  -- A request that writes is never sent twice: `api.post`, `api.postFormData`, `api.put`,
  -- `api.patch` and `api.delete` call `fetch` once at most, do not sleep, and end with a result, unless
  -- the body of that call never ends.
  pub writes-EndsWithin :
      (path : Text) (body : Json) (form : Text) (options : RequestOptions)
      → EndsWithin network 1 0 (post_json js network entropy path body options)
        × EndsWithin network 1 0 (post_form_data js network entropy path form options)
        × EndsWithin network 1 0 (put_json js network entropy path body options)
        × EndsWithin network 1 0 (patch_json js network entropy path body options)
        × EndsWithin network 1 0 (delete_json js network entropy path options)
  unfolding post_json post_form_data put_json patch_json delete_json is_read_method text_eq codes
  writes-EndsWithin path body form options = (
    request_with_retry-write js network (codes "POST") path _ _ refl,
    request_with_retry-write js network (codes "POST") path _ _ refl,
    request_with_retry-write js network (codes "PUT") path _ _ refl,
    request_with_retry-write js network (codes "PATCH") path _ _ refl,
    request_with_retry-write js network (codes "DELETE") path _ _ refl,
  )
