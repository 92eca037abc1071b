-- ===== src/Status/Load.antt =====
-- `loadSubmission`, which the effect calls at once and, for a signed-in account, every five seconds.
-- An effect has a number, and its answers count as long as it is the last one.
use startup.Common.{
  ℕ, ◌+◌, has_request, true, false, not, Option, none, some, List, [], ◌∷◌, ◌==◌, if◌then◌else◌,
  ◌or_else◌, Text, codes,
}
use startup.Marketplace.{Tool, ToolProcessingJob}
use startup.Submission.Adapter.{Formats, tool_to_submission_record}
use startup.Status.{Account, State}

unfoldable pub initial : State
initial = record {
  submission = none;
  loaded = false;
  load_error = none;
  account = record { is_loaded = false; is_signed_in = false };
  effect = 0;
  requests = [];
}

abbrev pub sign_in_message : Text
sign_in_message = codes "Sign in to view a submission owned by your account."

-- `loadSubmission` before it awaits, which is all of it for an account that is not signed in.
unfoldable pub begin_load : State → State
begin_load s =
    if not s.account.is_loaded
    then s
    else if s.account.is_signed_in
    then record s { load_error = none; requests = s.effect ∷ s.requests }
    else record s { load_error = some sign_in_message; submission = none; loaded = true }

-- The effect runs anew.
unfoldable pub change_account : Account → State → State
change_account account s = begin_load (record s { account = account; effect = s.effect + 1 })

-- The timer, which is set up for a signed-in account.
unfoldable pub poll : State → State
poll s = if s.account.is_signed_in then begin_load s else s

-- How the request ends: with a tool and its job, or with the message of an `ApiError`, or with another
-- error.
pub data Reply : Type 0 where
  got : Tool → Option ToolProcessingJob → Reply
  threw : Option Text → Reply

take_reply : Formats → Reply → State → State
take_reply js (got tool job) s = record s {
  submission = some (tool_to_submission_record js tool job);
  loaded = true;
}
take_reply js (threw message) s = record s {
  submission = none;
  load_error = some (message or_else codes "Could not load this owned submission from the API.");
  loaded = true;
}

-- The check of `active`, which the cleanup of an effect clears.
unfoldable pub end_load : Formats → ℕ → Reply → State → State
unfolding take_reply
end_load js n reply s = if n == s.effect then take_reply js reply s else s

-- The answer to a request of an effect: there is none to an effect that made no request.
unfoldable pub answer_request : Formats → ℕ → Reply → State → State
answer_request js n reply s = if has_request n s.requests then end_load js n reply s else s

pub data Event : Type 0 where
  account_changed : Account → Event
  polled : Event
  load_ended : ℕ → Reply → Event

unfoldable pub handle : Formats → Event → State → State
handle js (account_changed account) s = change_account account s
handle js polled s = poll s
handle js (load_ended n reply) s = answer_request js n reply s

unfoldable pub run : Formats → State → List Event → State
run js s [] = s
run js s (e ∷ es) = run js (handle js e s) es
