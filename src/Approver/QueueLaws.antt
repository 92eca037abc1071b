-- ===== src/Approver/QueueLaws.antt =====
-- What the queue shows of the answers of the API.
use startup.Common.{
  ◌≡◌, refl, sym, ◌∙◌, Bool, true, Option, none, some, List, [], ◌∷◌, ◌++◌, map, arith, Bool-cases,
  inl, inr, find?, is_some, Text, text_eq, text_eq_iff, if◌then◌else◌,
}
use startup.Marketplace.{Tool, ToolProcessingJob}
use startup.Submission.Adapter.{Formats, first_some, tool_to_submission_record}
use startup.Approver.{
  ready, Dashboard, has_job, job_of, add_latest, latest_jobs, records_of, loaded, end_load,
}

abbrev if_key : Text → Text → ToolProcessingJob → Option ToolProcessingJob
if_key key id job = if text_eq key id then some job else none

job_of-append :
    (id key : Text) (job : ToolProcessingJob) (jobs : List (Text × ToolProcessingJob))
    → job_of id (jobs ++ (key, job) ∷ []) ≡ first_some (job_of id jobs) (if_key key id job)
unfolding job_of
job_of-append id key job [] = ground arith
job_of-append id key job ((k, j) ∷ rest) = elim (Bool-cases (text_eq k id)) [
  | inl e ↦ rw (e, job_of) refl
  | inr e ↦ rw (e, job_of) (job_of-append id key job rest)
]

has_job-job_of :
    (id : Text) (jobs : List (Text × ToolProcessingJob))
    → has_job id jobs ≡ is_some (job_of id jobs)
unfolding has_job job_of
has_job-job_of id [] = refl
has_job-job_of id ((k, j) ∷ rest) = elim (Bool-cases (text_eq k id)) [
  | inl e ↦ rw (e, job_of) refl
  | inr e ↦ rw (e, job_of) (has_job-job_of id rest)
]

-- The first job of a tool in a list.
abbrev pub first_job : Text → List ToolProcessingJob → Option ToolProcessingJob
first_job id jobs = find? (λ job. text_eq job.tool_id id) jobs

-- A key that is there already hides a later job.
first_some-hidden :
    (id key : Text) (job : ToolProcessingJob) (found later : Option ToolProcessingJob)
    → (text_eq key id ≡ true → is_some found ≡ true)
    → first_some found later ≡ first_some found (if text_eq key id then some job else later)
first_some-hidden id key job none later h = elim (Bool-cases (text_eq key id)) [
  | inl e ↦ cc (h e)
  | inr e ↦ rw e refl
]
first_some-hidden id key job (some j) later h = refl

first_some_assoc :
    (id key : Text) (job : ToolProcessingJob) (found later : Option ToolProcessingJob)
    → first_some (first_some found (if_key key id job)) later
      ≡ first_some found (if text_eq key id then some job else later)
first_some_assoc id key job none later = ground arith
first_some_assoc id key job (some j) later = refl

job_of-add_latest :
    (id : Text) (latest : List (Text × ToolProcessingJob)) (job : ToolProcessingJob)
    (later : Option ToolProcessingJob)
    → first_some (job_of id (add_latest latest job)) later
      ≡ first_some (job_of id latest) (if text_eq job.tool_id id then some job else later)
unfolding add_latest
job_of-add_latest id latest job later = elim (Bool-cases (has_job job.tool_id latest)) [
  | inl e ↦
      rw (e, add_latest)
        (first_some-hidden id job.tool_id job (job_of id latest) later (λ q.
          rw (← (text_eq_iff job.tool_id id).0 q) (rw (← has_job-job_of job.tool_id latest) e)))
  | inr e ↦
      rw (e, add_latest)
        (rw (job_of-append id job.tool_id job latest)
          (first_some_assoc id job.tool_id job (job_of id latest) later))
]

first_some-none : (o : Option ToolProcessingJob) → first_some o none ≡ o
first_some-none none = refl
first_some-none (some job) = refl

job_of-latest_jobs :
    (id : Text) (latest : List (Text × ToolProcessingJob)) (jobs : List ToolProcessingJob)
    → job_of id (latest_jobs latest jobs) ≡ first_some (job_of id latest) (first_job id jobs)
unfolding latest_jobs
job_of-latest_jobs id latest [] = sym (first_some-none (job_of id latest))
job_of-latest_jobs id latest (job ∷ jobs) =
    job_of-latest_jobs id (add_latest latest job) jobs
    ∙ job_of-add_latest id latest job (first_job id jobs)

records_of-first_job :
    (js : Formats) (jobs : List ToolProcessingJob) (tools : List Tool)
    → map (λ tool. tool_to_submission_record js tool (job_of tool.id (latest_jobs [] jobs))) tools
      ≡ map (λ tool. tool_to_submission_record js tool (first_job tool.id jobs)) tools
unfolding job_of
records_of-first_job js jobs [] = refl
records_of-first_job js jobs (tool ∷ tools) =
    rw (job_of-latest_jobs tool.id [] jobs) (rw (records_of-first_job js jobs tools) refl)

-- A load that succeeds shows every tool of the answer, in its order, each with the first of the jobs
-- that are its own, which is the latest as the API lists them; and the queue is ready, whether the load was silent or
-- not.
pub end_load_lem :
    (js : Formats) (silent : Bool) (tools : List Tool) (jobs : List ToolProcessingJob)
    (s : Dashboard)
    → ((end_load js silent (loaded tools jobs) s).submissions
        ≡ map (λ tool. tool_to_submission_record js tool (first_job tool.id jobs)) tools)
      × ((end_load js silent (loaded tools jobs) s).queue_status ≡ ready)
unfolding end_load records_of
end_load_lem js silent tools jobs s = (records_of-first_job js jobs tools, refl)
