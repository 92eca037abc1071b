-- ===== src/Status/Tests.antt =====
-- The page at concrete inputs.
use startup.Common.{◌≡◌, refl, true, false, none, List, [], ◌∷◌}
use startup.Marketplace.{nlp}
use startup.Marketplace.Samples.{sample_tool}
use startup.Submission.{SubmissionStage}
use startup.Submission.Samples.{formats}
use startup.Status.Load.{
  initial, begin_load, change_account, poll, got, end_load, answer_request, Event, account_changed,
  polled, load_ended, handle, run,
}
use startup.Status.Stages.{
  stages, stage_eq, find_index, stage_index, row_state, rows, complete, StageState, pending,
}
use startup.Status.Laws.{IsClosed, run-IsClosed}

-- A submission is rejected in the row of its review.
rejected_rows :
    rows SubmissionStage.rejected stages 0
    ≡ complete ∷ complete ∷ StageState.rejected ∷ pending ∷ []
unfolding rows stages row_state stage_index find_index stage_eq
rejected_rows = refl

-- A seller signs out while a request is on its way.
abbrev events : List Event
events =
    account_changed (record { is_loaded = true; is_signed_in = true })
    ∷ polled
    ∷ account_changed (record { is_loaded = true; is_signed_in = false })
    ∷ load_ended 1 (got (sample_tool "Digest" "a summarizer of text" nlp 3) none)
    ∷ []

run-IsClosed_example : IsClosed (run formats initial events)
unfolding run handle change_account begin_load poll answer_request end_load initial
run-IsClosed_example = run-IsClosed formats events refl
