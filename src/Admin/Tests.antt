-- ===== src/Admin/Tests.antt =====
-- The operations at concrete inputs.
use startup.Common.{◌≡◌, none, some, List, [], ◌∷◌, codes, All}
use Prim.Native.String.{String}
use startup.Admin.{AdminProcessingJob, JobStatus, Operations, first_operations}
use startup.Admin.Handlers.{got, end_retry_job}
use startup.Admin.Laws.{IsOther, IsKept, end_retry_job_lem}

abbrev job : String → JobStatus → AdminProcessingJob
job id status = record {
  id = codes id;
  tool_id = codes "t1";
  seller_id = codes "u1";
  status = status;
  trigger = codes "submit";
  attempts = 3;
  max_attempts = 3;
  last_error = none;
  created_at = codes "2026-01-01";
  tool_name = none;
  tool_slug = none;
  tool_status = none;
  seller_email = none;
}

abbrev operations : Operations
operations = record first_operations {
  jobs = job "j1" JobStatus.succeeded ∷ job "j2" JobStatus.failed ∷ [];
  notice = some (codes "Ready.");
}

end_retry_job_lem_example :
    (rest : List AdminProcessingJob) × ((end_retry_job
        (got (job "j2" JobStatus.queued))
        operations).jobs
      ≡ job "j2" JobStatus.queued ∷ rest)
    × All (IsOther (codes "j2")) rest
    × All (IsKept (codes "j2") rest) operations.jobs
    × ((end_retry_job (got (job "j2" JobStatus.queued)) operations).notice ≡ none)
end_retry_job_lem_example = end_retry_job_lem (job "j2" JobStatus.queued) operations
