-- ===== src/Api/Retry.antt =====
-- How often a request is sent, how long it waits, and with what it ends.
use startup.Common.{
  ℕ, suc, ◌+◌, ◌*◌, ◌<◌, ◌≡◌, refl, Bool, true, false, not, ◌&&◌, Option, some, List, [], ◌∷◌, ◌++◌,
  arith, ◌==◌, if◌then◌else◌, Bool-cases, inl, inr, Text,
}
use startup.Env.{api_base, should_skip_build_time_fetch}
use startup.Api.Errors.{
  Response, is_ok, Parsed, parsed, no_json, unending, rejected, parse_response_body, to_api_error,
}
use startup.Api.Transport.{threw}
use startup.Api.Transport.{
  RequestInit, Fetched, response, aborted, failed, Effect, fetched, slept, Outcome, value,
  no_content, syntax_error, read_error, waiting, api_error, request_timeout, network_error,
  local_service_unavailable, is_retryable_status, is_read_method, Platform, done, again,
  catch_fetch, fetch_with_timeout, round, request_with_retry,
}

-- The number of calls of `fetch` among the effects, and the time that is slept between them.
abbrev pub fetches : List Effect → ℕ
fetches [] = 0
fetches (fetched input init timeout_ms ∷ r) = suc (fetches r)
fetches (slept ms ∷ r) = fetches r

abbrev pub slept_ms : List Effect → ℕ
slept_ms [] = 0
slept_ms (fetched input init timeout_ms ∷ r) = slept_ms r
slept_ms (slept ms ∷ r) = ms + slept_ms r

abbrev is_parsed : Parsed → Bool
is_parsed (parsed body) = true
is_parsed _ = false

module _ (js : Platform) (network : ℕ → Fetched) where
  -- With what a request ends whose last call of `fetch` ends so.
  outcome_of_data : Response → Parsed → Outcome
  outcome_of_data res no_json = syntax_error
  outcome_of_data res (rejected message) = read_error message
  outcome_of_data res unending = waiting
  outcome_of_data res (parsed body) =
      if is_ok res then value body else api_error (to_api_error js.number_text res body)

  unfoldable pub outcome_of : Fetched → Outcome
  unfolding outcome_of_data
  outcome_of aborted = api_error request_timeout
  outcome_of failed = api_error network_error
  outcome_of (response res read) =
      if res.status == 204
      then no_content
      else outcome_of_data res (parse_response_body js.parse_json res read)

  -- The answer is a passing fault of the server, with a body that can be read, to a request that
  -- only reads.
  unfoldable pub is_passing_fault : Text → Fetched → Bool
  is_passing_fault method aborted = false
  is_passing_fault method failed = false
  is_passing_fault method (response res read) =
      not (res.status == 204)
      && (is_parsed (parse_response_body js.parse_json res read)
          && (not (is_ok res) && (is_retryable_status res.status && is_read_method method)))

  -- What a request of one, two or three calls does.
  module _ (input : Text) (init : RequestInit) (timeout_ms : ℕ) where
    abbrev pub one_call : List Effect
    one_call = fetched input init timeout_ms ∷ []

    abbrev pub two_calls : List Effect
    two_calls = fetched input init timeout_ms ∷ slept 500 ∷ one_call

    abbrev pub three_calls : List Effect
    three_calls =
        fetched input init timeout_ms
        ∷ slept 500
        ∷ fetched input init timeout_ms
        ∷ slept 1000
        ∷ one_call

    -- A request stops at the first answer that is no passing fault, and at the third in any case.
    unfoldable pub settled : Text → Option Outcome × List Effect
    settled method =
        if is_passing_fault method (network 0)
        then if is_passing_fault method (network 1)
          then (some (outcome_of (network 2)), three_calls)
          else (some (outcome_of (network 1)), two_calls)
        else (some (outcome_of (network 0)), one_call)

  round-again :
      (method : Text) (attempt : ℕ) (f : Fetched)
      → attempt < 2
      → is_passing_fault method f ≡ true
      → round js network method attempt (catch_fetch js network f) ≡ again (500 * (attempt + 1))
  unfolding round is_passing_fault catch_fetch
  round-again method attempt aborted lt h = cc
  round-again method attempt failed lt h = cc
  round-again method attempt (response res read) lt h = ground arith

  round-done :
      (method : Text) (attempt : ℕ) (f : Fetched)
      → is_passing_fault method f ≡ false
      → round js network method attempt (catch_fetch js network f) ≡ done (outcome_of f)
  unfolding round is_passing_fault outcome_of catch_fetch
  round-done method attempt aborted h = refl
  round-done method attempt failed h = refl
  round-done method attempt (response res read) h = ground arith

  round-last :
      (method : Text) (f : Fetched)
      → round js network method 2 (catch_fetch js network f) ≡ done (outcome_of f)
  unfolding round outcome_of catch_fetch
  round-last method aborted = refl
  round-last method failed = refl
  round-last method (response res read) = ground arith

  module _ (method path : Text) (init : RequestInit) (timeout_ms : ℕ) where
    pub skipped :
        (fuel attempt : ℕ)
        → should_skip_build_time_fetch js.parse_url js.env (api_base js.env ++ path) ≡ true
        → request_with_retry js network method path init timeout_ms (suc fuel) attempt
          ≡ (some (api_error local_service_unavailable), [])
    unfolding request_with_retry round
    skipped fuel attempt h =
        let e : fetch_with_timeout js network (api_base js.env ++ path) init timeout_ms attempt
            ≡ (threw local_service_unavailable, []) =
          unfold fetch_with_timeout in rw h in
        rw (e, request_with_retry) (rw e)

    module _
        (online : should_skip_build_time_fetch js.parse_url js.env (api_base js.env ++ path)
          ≡ false) where
      fetch_online :
          (attempt : ℕ)
          → fetch_with_timeout js network (api_base js.env ++ path) init timeout_ms attempt ≡ (
            catch_fetch js network (network attempt),
            one_call (api_base js.env ++ path) init timeout_ms,
          )
      unfolding fetch_with_timeout
      fetch_online attempt = rw online

      step-done :
          (fuel attempt : ℕ) {o : Outcome}
          → round js network method attempt (catch_fetch js network (network attempt)) ≡ done o
          → request_with_retry js network method path init timeout_ms (suc fuel) attempt
            ≡ (some o, one_call (api_base js.env ++ path) init timeout_ms)
      unfolding request_with_retry
      step-done fuel attempt h =
          rw (fetch_online attempt, request_with_retry)
            (rw (h, request_with_retry) (rw (fetch_online attempt)))

      step-again :
          (fuel attempt : ℕ) {ms : ℕ} {o : Option Outcome} {later : List Effect}
          → round js network method attempt (catch_fetch js network (network attempt)) ≡ again ms
          → request_with_retry js network method path init timeout_ms fuel (attempt + 1)
            ≡ (o, later)
          → request_with_retry js network method path init timeout_ms (suc fuel) attempt
            ≡ (o, fetched (api_base js.env ++ path) init timeout_ms ∷ slept ms ∷ later)
      unfolding request_with_retry
      step-again fuel attempt h k =
          rw (fetch_online attempt, request_with_retry)
            (rw (h, request_with_retry) (rw (fetch_online attempt) (rw k)))

      -- Unless the call is skipped during a build, `requestWithRetry` does what `settled` describes:
      -- it stops at the first answer that is no passing fault, at the third in any case, sleeps 500
      -- and then 1000 ms in between, and ends with the outcome of its last call. A passing fault is a
      -- 502, 503 or 504 with a readable body, to a GET or HEAD.
      pub request_with_retry_lem :
          request_with_retry js network method path init timeout_ms 3 0
          ≡ settled (api_base js.env ++ path) init timeout_ms method
      unfolding settled
      request_with_retry_lem = elim (Bool-cases (is_passing_fault method (network 0))) [
        | inr e ↦ rw e (step-done 2 0 (round-done method 0 (network 0) e))
        | inl e ↦ elim (Bool-cases (is_passing_fault method (network 1))) [
          | inr e' ↦ rw e (
              rw e' (
                step-again 2 0 (round-again method 0 (network 0) (omega arith) e)
                  (step-done 1 1 (round-done method 1 (network 1) e'))))
          | inl e' ↦ rw e (
              rw e' (
                step-again 2 0 (round-again method 0 (network 0) (omega arith) e) (
                  step-again 1 1 (round-again method 1 (network 1) (omega arith) e')
                    (step-done 0 2 (round-last method (network 2))))))
        ]
      ]
