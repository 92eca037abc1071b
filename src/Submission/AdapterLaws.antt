-- ===== src/Submission/AdapterLaws.antt =====
-- What a submission record says of the tool and of its latest job.
use startup.Common.{◌≡◌, ◌⊎◌, ◌↔◌, Option, none, some, arith}
use startup.Marketplace.{
  ToolStatus, live, processing, ToolProcessingJob, queued, running, retrying, succeeded, failed,
}
use startup.Submission.{testing, listed, rejected}
use startup.Submission.Adapter.{stage_of_status, to_submission_stage}

-- No job of the tool is under way, and none has failed.
abbrev pub IsQuiet : Option ToolProcessingJob → Type 0
IsQuiet none = Unit
IsQuiet (some job) = job.status ≡ succeeded

abbrev pub IsUnderWay : Option ToolProcessingJob → Type 0
IsUnderWay none = ⊥
IsUnderWay (some job) = (job.status ≡ queued) ⊎ (job.status ≡ running) ⊎ (job.status ≡ retrying)

abbrev pub HasFailed : Option ToolProcessingJob → Type 0
HasFailed none = ⊥
HasFailed (some job) = job.status ≡ failed

-- A submission counts as listed exactly if its tool is live and its latest job, if any, has
-- succeeded; as testing exactly if that job is under way, or it is quiet and the tool is processed;
-- and as rejected exactly if the job has failed, or it is quiet and the tool is rejected.
pub to_submission_stage_iff :
    (status : ToolStatus) (job : Option ToolProcessingJob)
    → ((to_submission_stage status job ≡ listed) ↔ ((status ≡ live) × IsQuiet job))
      × ((to_submission_stage status job ≡ testing)
          ↔ (IsUnderWay job ⊎ ((status ≡ processing) × IsQuiet job)))
      × ((to_submission_stage status job ≡ rejected)
          ↔ (HasFailed job ⊎ ((status ≡ ToolStatus.rejected) × IsQuiet job)))
unfolding to_submission_stage stage_of_status
to_submission_stage_iff status none = ground arith
to_submission_stage_iff status (some job) = ground arith
