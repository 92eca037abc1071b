-- ===== src/Submission/Samples.antt =====
-- A job and a platform for the tests.
use startup.Common.{none, some, codes, ascii_lower, length}
use startup.Marketplace.{ToolProcessingJob, running}
use startup.Submission.Adapter.{Formats}

abbrev pub formats : Formats
formats = record {
  to_lower = ascii_lower;
  pretty = λ j. codes "{}";
  cents = λ s. length s;
  double = λ s. length s;
}

abbrev pub sample_job : ToolProcessingJob
sample_job = record {
  id = codes "j1";
  tool_id = codes "t1";
  status = running;
  attempts = 1;
  max_attempts = 3;
  trigger = codes "upload";
  last_error = none;
  arq_job_id = codes "a1";
  enqueued_at = some (codes "2026-01-01");
  started_at = none;
  finished_at = none;
  created_at = codes "2026-01-01";
  updated_at = codes "2026-01-01";
}
