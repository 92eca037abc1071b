-- ===== src/Submit/Tests.antt =====
-- The theorems on the submit page at concrete inputs.
use startup.Common.{
  is_some, none, ◌≡◌, refl, List, true, none, some, [], ◌∷◌, codes, ascii_lower, length, trim,
  truthy, starts_with, split, arith,
}
use startup.Marketplace.{nlp}
use startup.Marketplace.Samples.{sample_tool}
use startup.Submission.{buy}
use startup.Submission.Adapter.{tool_to_submission_record}
use startup.Submission.Samples.{formats}
use startup.Submit.{Doubles, State, initial, Listing, review, validate_github_url, github_prefix}
use startup.Access.Verify.{token, no_token}
use startup.Submit.Flow.{Account, awaited_token, Gate, analyze, refused, broken, set_url}
use startup.Submit.Requests.{Captured, submit_with, Server, ok, submit_owned, run_submit}
use startup.Submit.Calls.{WasQueued, run_submit-queued}
use startup.Submit.Ending.{Course, analysis-Leaves}
use startup.Submit.Invariant.{
  typed_url, analyzed, settled, step_timer, gate_timer, was_reset, run, Inv, run-Inv, Event,
}

-- Numbers as the lengths of their texts.
abbrev doubles : Doubles
doubles = record {
  number = λ s. length s;
  is_finite = λ d. true;
  lt = λ a b. true;
  le = λ a b. true;
  to_fixed = λ k d. codes "2.00";
  hundredth = λ n. n;
}

abbrev gate : Gate
gate = record { to_lower = ascii_lower; doubles = doubles }

abbrev listing : Listing
listing = record {
  id = some (codes "t1");
  name = codes "Digest";
  description = codes "a summarizer of text";
  category = nlp;
  stack = codes "FastAPI" ∷ [];
  inputs = codes "text";
  outputs = codes "json";
  language = codes "Python";
  license = codes "MIT";
}

abbrev reviewing : State
reviewing = record initial { phase = review; listing = some listing; amount = codes "2.00" }

abbrev captured : Captured
captured = record { listing = listing; url = []; pricing_model = buy; amount = codes "2.00" }

abbrev server : Server
server = record {
  put = ok tt;
  upload = ok tt;
  configure = ok (sample_tool "Digest" "a summarizer of text" nlp 3);
}

abbrev account : Account
account = record { is_signed_in = true; token = token (some (codes "jwt")) }

run_submit-queued_example :
    let r =
      tool_to_submission_record formats (sample_tool "Digest" "a summarizer of text" nlp 3) none in
    (account.is_signed_in ≡ true)
    × WasQueued formats doubles server captured r
        (run_submit formats doubles server captured account).1
unfolding run_submit submit_with submit_owned awaited_token truthy codes
run_submit-queued_example =
    run_submit-queued formats doubles server captured account
      (tool_to_submission_record formats (sample_tool "Digest" "a summarizer of text" nlp 3) none)
      refl

abbrev events : List Event
events =
    typed_url (codes "https://github.com/ada/tool")
    ∷ analyzed account
    ∷ step_timer
    ∷ settled broken
    ∷ gate_timer
    ∷ was_reset
    ∷ []

run-Inv_example : Inv (run gate initial events)
run-Inv_example = run-Inv gate events

abbrev entered : State
entered = set_url (codes "https://github.com/ada/tool") initial

analysis-Leaves_example :
    (is_some (analyze account entered).1 ≡ true)
    × Course gate (refused (codes "Busy.")) 1 3 (analyze account entered)
unfolding validate_github_url set_url initial codes trim starts_with github_prefix split
analysis-Leaves_example =
    analysis-Leaves gate account entered (refused (codes "Busy.")) 1 3 refl (omega arith)

-- A token that is rejected leaves nothing to send.
not_sent : (analyze (record { is_signed_in = true; token = no_token none }) entered).1 ≡ none
unfolding validate_github_url set_url initial codes trim starts_with github_prefix split analyze
    awaited_token
not_sent = refl
