-- ===== src/Submission.antt =====
-- The records of apps/web/src/lib/submissions.ts. The fields that no code of the adapter sets
-- (endpoint results, and the health of a listed tool) are left out.
pub mod Adapter
pub mod AdapterLaws
pub mod Names
pub mod NameLaws
pub mod Samples
mod Tests
use startup.Common.{
  ℕ, Bool, true, false, ◌&&◌, ◌||◌, Option, none, some, List, [], ◌∷◌, ◌++◌, if◌then◌else◌,
  ◌or_else◌, Text, codes, includes, is_blank, not,
}
use startup.Json.{Json, null, bool, num, str, arr, obj, nil, cons, end, member}
use startup.Marketplace.{
  Tool, ToolCategory, ToolStatus, draft, processing, live, paused, OwnershipType, full_sale,
  InputType, OutputType, ToolProcessingJob, ToolProcessingJobStatus, queued, running, retrying,
  succeeded, failed, category_name,
}

pub data SubmissionStage : Type 0 where
  submitted testing manual_review listed rejected revoked : SubmissionStage

pub record Security : Type 0 where
  pub critical : ℕ
  pub medium : ℕ
  pub low : ℕ

pub data DocsQuality : Type 0 where
  good fair poor : DocsQuality

pub record SubmissionMetrics : Type 0 where
  pub confidence : ℕ
  pub endpoints_total : ℕ
  pub endpoints_passing : ℕ
  pub avg_response_ms : ℕ
  pub p50_response_ms : ℕ
  pub p95_response_ms : ℕ
  pub p99_response_ms : ℕ
  pub io_match_pct : ℕ
  pub security : Security
  pub docs_quality : DocsQuality
  pub test_coverage_pct : ℕ
  pub deps_total : ℕ
  pub deps_outdated : ℕ
  pub deps_vulnerable : ℕ
  pub rate_limiting : Bool
  pub consistent_errors : Bool
  pub rest_conventions : Bool
  pub loc : ℕ
  pub files : ℕ
  pub license : Option Text
  pub last_commit : Text

pub record LiveMonitoring : Type 0 where
  pub api_calls_total : ℕ
  pub last_updated_at : Text
  pub uptime_pct : Option ℕ

pub data PricingModel : Type 0 where
  buy royalty : PricingModel

-- The part of a job that a submission shows.
pub record SubmissionJob : Type 0 where
  pub id : Text
  pub status : ToolProcessingJobStatus
  pub attempts : ℕ
  pub max_attempts : ℕ
  pub trigger : Text
  pub last_error : Option Text
  pub enqueued_at : Option Text
  pub started_at : Option Text
  pub finished_at : Option Text

pub record SubmissionRecord : Type 0 where
  pub id : Text
  pub name : Text
  pub slug : Text
  pub github_url : Text
  pub submitter_email : Text
  pub language : Text
  pub category : ToolCategory
  pub tech_stack : List Text
  pub description : Text
  pub inputs : Text
  pub outputs : Text
  pub pricing_model : PricingModel
  pub price_cents : ℕ
  pub submitted_at : Text
  pub stage : SubmissionStage
  pub metrics : SubmissionMetrics
  pub metrics_available : Bool
  pub reviewer_notes : Option Text
  pub rejection_reason : Option Text
  pub live : Option LiveMonitoring
  pub testing_started_at : Option Text
  pub processing_job : Option SubmissionJob
