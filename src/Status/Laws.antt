-- ===== src/Status/Laws.antt =====
-- What the page shows to whom.
use startup.Common.{
  ℕ, refl, false, has_request, AreUpTo, AreUpTo-below, has_request-above, ◌≡◌, true, Bool, ◌&&◌,
  none, some, List, [], ◌∷◌, arith, not,
}
use startup.Submission.Adapter.{Formats}
use startup.Status.{Account, State}
use startup.Status.Load.{
  initial, sign_in_message, begin_load, change_account, poll, Reply, answer_request, got, threw,
  end_load, Event, account_changed, polled, load_ended, handle, run,
}

-- The page is shown to an account that is known not to be signed in.
abbrev pub is_signed_out : State → Bool
is_signed_out s = s.account.is_loaded && not s.account.is_signed_in

-- It shows that account no submission, but asks it to sign in.
abbrev pub IsClosed : State → Type 0
IsClosed s = (s.submission ≡ none) × (s.load_error ≡ some sign_in_message) × (s.loaded ≡ true)

-- An account that is known not to be signed in is shown nothing, and the effect that knows it made no
-- request. The requests are those of effects up to the last one.
pub record IsDiscreet (s : State) : Type 0 where
  pub closed : is_signed_out s ≡ true → IsClosed s
  pub silent : is_signed_out s ≡ true → has_request s.effect s.requests ≡ false
  pub up_to : AreUpTo s.effect s.requests

change_account-IsDiscreet :
    (account : Account) (s : State)
    → AreUpTo s.effect s.requests
    → IsDiscreet (change_account account s)
unfolding change_account begin_load
change_account-IsDiscreet account s h =
    let later = AreUpTo-below s.effect s.requests h in
    let none_yet = has_request-above s.effect s.requests h in
    record { closed = λ e. ground arith; silent = λ e. ground arith; up_to = ground arith }

poll-IsDiscreet : (s : State) → IsDiscreet s → IsDiscreet (poll s)
unfolding poll begin_load
poll-IsDiscreet s v =
    let closed = v.closed in
    let silent = v.silent in
    let up_to = v.up_to in
    record { closed = λ e. ground arith; silent = λ e. ground arith; up_to = ground arith }

answer_request-IsDiscreet :
    (js : Formats) (n : ℕ) (reply : Reply) (s : State)
    → IsDiscreet s
    → IsDiscreet (answer_request js n reply s)
unfolding answer_request end_load
answer_request-IsDiscreet js n (got tool job) s v =
    let closed = v.closed in
    let silent = v.silent in
    let up_to = v.up_to in
    record { closed = λ e. ground arith; silent = λ e. ground arith; up_to = ground arith }
answer_request-IsDiscreet js n (threw message) s v =
    let closed = v.closed in
    let silent = v.silent in
    let up_to = v.up_to in
    record { closed = λ e. ground arith; silent = λ e. ground arith; up_to = ground arith }

handle-IsDiscreet :
    (js : Formats) (e : Event) (s : State) → IsDiscreet s → IsDiscreet (handle js e s)
unfolding handle
handle-IsDiscreet js (account_changed account) s v = change_account-IsDiscreet account s v.up_to
handle-IsDiscreet js polled s v = poll-IsDiscreet s v
handle-IsDiscreet js (load_ended n reply) s v = answer_request-IsDiscreet js n reply s v

run_from-IsDiscreet :
    (js : Formats) (events : List Event) (s : State) → IsDiscreet s → IsDiscreet (run js s events)
unfolding run
run_from-IsDiscreet js [] s safe = safe
run_from-IsDiscreet js (e ∷ es) s safe =
    run_from-IsDiscreet js es (handle js e s) (handle-IsDiscreet js e s safe)

-- After any events in any order, polls and late answers to earlier accounts included: an account that
-- is known not to be signed in is shown no submission, but is asked to sign in.
pub run-IsClosed :
    (js : Formats) (events : List Event)
    → is_signed_out (run js initial events) ≡ true
    → IsClosed (run js initial events)
unfolding initial
run-IsClosed js events =
    (run_from-IsDiscreet js events initial
      (record { closed = λ h. ground arith; silent = λ h. refl; up_to = tt })).closed
