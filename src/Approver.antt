-- ===== src/Approver.antt =====
-- The dashboard of apps/web/src/app/approver/ApproverClient.tsx behind its gate: the queue of
-- submissions, which of them is in focus, and the decisions that a reviewer makes.
pub mod Review
pub mod QueueLaws
pub mod FocusLaws
pub mod ReviewLaws
mod Tests
use startup.Common.{
  ℕ, Bool, true, false, not, ◌||◌, Option, none, some, List, [], ◌∷◌, ◌++◌, map, if◌then◌else◌,
  ◌or_else◌, any, keep, find?, is_some, Text, codes, text_eq, truthy,
}
use startup.Marketplace.{Tool, ToolProcessingJob}
use startup.Submission.{SubmissionStage, testing, manual_review, listed, SubmissionRecord}
use startup.Submission.Adapter.{Formats, tool_to_submission_record}

pub data QueueStatus : Type 0 where
  loading ready error : QueueStatus

-- The `useState` variables of the dashboard.
pub record Dashboard : Type 0 where
  pub submissions : List SubmissionRecord
  pub queue_status : QueueStatus
  pub queue_error : Option Text
  pub focus_id : Option Text
  pub toast : Option Text

-- `latestJobByTool`, a Map, in the order in which its keys were set.
pub has_job : Text → List (Text × ToolProcessingJob) → Bool
has_job id jobs = any (λ entry. text_eq entry.0 id) jobs

pub job_of : Text → List (Text × ToolProcessingJob) → Option ToolProcessingJob
job_of id [] = none
job_of id ((key, job) ∷ rest) = if text_eq key id then some job else job_of id rest

unfoldable pub add_latest :
    List (Text × ToolProcessingJob) → ToolProcessingJob → List (Text × ToolProcessingJob)
unfolding has_job
add_latest jobs job = if has_job job.tool_id jobs then jobs else jobs ++ (job.tool_id, job) ∷ []

-- The loop over the jobs.
unfoldable pub latest_jobs :
    List (Text × ToolProcessingJob) → List ToolProcessingJob → List (Text × ToolProcessingJob)
latest_jobs latest [] = latest
latest_jobs latest (job ∷ jobs) = latest_jobs (add_latest latest job) jobs

unfoldable pub records_of : Formats → List Tool → List ToolProcessingJob → List SubmissionRecord
records_of js tools jobs =
    map (λ tool. tool_to_submission_record js tool (job_of tool.id (latest_jobs [] jobs))) tools

-- `loadQueue` before it awaits.
unfoldable pub begin_load : Bool → Dashboard → Dashboard
begin_load silent s =
    if not silent then record s { queue_status = loading; queue_error = none } else s

-- How the two requests end: with both answers, or one of them with an `ApiError`'s message or with
-- another error.
pub data Loaded : Type 0 where
  loaded : List Tool → List ToolProcessingJob → Loaded
  not_loaded : Option Text → Loaded

unfoldable pub end_load : Formats → Bool → Loaded → Dashboard → Dashboard
end_load js silent (loaded tools jobs) s = record s {
  submissions = records_of js tools jobs;
  queue_status = ready;
}
end_load js silent (not_loaded message) s = record s {
  queue_error = some (message or_else codes "Could not load the live approver queue.");
  queue_status = if silent then s.queue_status else error;
}

abbrev pub is_testing : SubmissionStage → Bool
is_testing testing = true
is_testing _ = false

abbrev pub is_in_review : SubmissionStage → Bool
is_in_review manual_review = true
is_in_review _ = false

abbrev pub is_listed : SubmissionStage → Bool
is_listed listed = true
is_listed _ = false

unfoldable pub testing_of : Dashboard → List SubmissionRecord
testing_of s = keep (λ r. is_testing r.stage) s.submissions

unfoldable pub review_queue_of : Dashboard → List SubmissionRecord
review_queue_of s = keep (λ r. is_in_review r.stage) s.submissions

unfoldable pub live_of : Dashboard → List SubmissionRecord
live_of s = keep (λ r. is_listed r.stage) s.submissions

pub first_id : List SubmissionRecord → Option Text
first_id [] = none
first_id (r ∷ rest) = some r.id

unfoldable pub or_first : Option Text → Option Text → Option Text
or_first none b = b
or_first (some a) b = some a

unfoldable pub default_focus_id : Dashboard → Option Text
unfolding first_id or_first
default_focus_id s =
    or_first (first_id (review_queue_of s))
      (or_first (first_id (testing_of s)) (first_id (live_of s)))

-- `submissions.some((submission) => submission.id === focusId)`
unfoldable pub is_submission : Dashboard → Text → Bool
is_submission s id = any (λ r. text_eq r.id id) s.submissions

-- `!focusId || !submissions.some(…)`
unfoldable pub lost_focus : Dashboard → Bool
lost_focus s = elim (truthy s.focus_id) [ none ↦ true | some id ↦ not (is_submission s id) ]

-- The effect that chooses a focus.
unfoldable pub choose_focus : Dashboard → Dashboard
choose_focus s = elim (truthy (default_focus_id s)) [
  | none ↦ s
  | some id ↦ if lost_focus s then record s { focus_id = some id } else s
]

-- The submission that is shown.
unfoldable pub focused : Dashboard → Option SubmissionRecord
focused s = elim (truthy s.focus_id) [
  | none ↦ none
  | some id ↦ find? (λ r. text_eq r.id id) s.submissions
]
