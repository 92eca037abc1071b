-- ===== src/Submission/Adapter.antt =====
-- apps/web/src/lib/submission-adapter.ts. Parameters: `toLowerCase`; `pretty`, the indented
-- `JSON.stringify`; `cents`, `Math.round(Number(s) * 100)` of a decimal of the API; and `double`, the
-- 64 bits of `Number(s)`.
use startup.Common.{
  ℕ, Bool, true, false, ◌||◌, Option, none, some, List, [], ◌∷◌, ◌++◌, if◌then◌else◌, ◌or_else◌,
  Text, codes, includes, is_blank, not,
}
use startup.Json.{Json, str, arr, obj, cons, member}
use startup.Marketplace.{
  Tool, ToolStatus, draft, processing, live, paused, OwnershipType, full_sale, InputType,
  OutputType, ToolProcessingJob, ToolProcessingJobStatus, queued, running, retrying, succeeded,
  failed,
}
use startup.Submission.{
  SubmissionStage, testing, manual_review, listed, rejected, revoked, good, SubmissionMetrics,
  LiveMonitoring, PricingModel, buy, royalty, SubmissionJob, SubmissionRecord,
}

unfoldable pub zero_metrics : Text → SubmissionMetrics
zero_metrics last_commit = record {
  confidence = 0;
  endpoints_total = 0;
  endpoints_passing = 0;
  avg_response_ms = 0;
  p50_response_ms = 0;
  p95_response_ms = 0;
  p99_response_ms = 0;
  io_match_pct = 0;
  security = record { critical = 0; medium = 0; low = 0 };
  docs_quality = good;
  test_coverage_pct = 0;
  deps_total = 0;
  deps_outdated = 0;
  deps_vulnerable = 0;
  rate_limiting = false;
  consistent_errors = false;
  rest_conventions = false;
  loc = 0;
  files = 0;
  license = none;
  last_commit = last_commit;
}

-- The `switch` on the tool's status.
unfoldable pub stage_of_status : ToolStatus → SubmissionStage
stage_of_status processing = testing
stage_of_status live = listed
stage_of_status ToolStatus.rejected = rejected
stage_of_status paused = revoked
stage_of_status draft = manual_review

stage_of_job : ToolProcessingJobStatus → ToolStatus → SubmissionStage
stage_of_job queued status = testing
stage_of_job running status = testing
stage_of_job retrying status = testing
stage_of_job failed status = rejected
stage_of_job succeeded status = stage_of_status status

unfoldable pub to_submission_stage : ToolStatus → Option ToolProcessingJob → SubmissionStage
unfolding stage_of_job
to_submission_stage status none = stage_of_status status
to_submission_stage status (some job) = stage_of_job job.status status

-- `stack.push(name)` if the source holds the word.
push_if : Text → Text → Text → List Text → List Text
push_if source word name stack = if includes word source then stack ++ name ∷ [] else stack

unfoldable pub submission_job : ToolProcessingJob → SubmissionJob
submission_job job = record {
  id = job.id;
  status = job.status;
  attempts = job.attempts;
  max_attempts = job.max_attempts;
  trigger = job.trigger;
  last_error = job.last_error;
  enqueued_at = job.enqueued_at;
  started_at = job.started_at;
  finished_at = job.finished_at;
}

-- `a ?? b` where `b` may be null too.
abbrev pub first_some {ℓ} : {A : Type ℓ} → Option A → Option A → Option A
first_some none b = b
first_some (some a) b = some a

abbrev pub map_some {ℓ κ} : {A : Type ℓ} {B : Type κ} → (A → B) → Option A → Option B
map_some f none = none
map_some f (some a) = some (f a)

abbrev pub bind_some {ℓ κ} : {A : Type ℓ} {B : Type κ} → Option A → (A → Option B) → Option B
bind_some none f = none
bind_some (some a) f = f a

-- `Object.keys(schema).length > 0`
unfoldable pub has_keys : Json → Bool
has_keys (obj (member k v rest)) = true
has_keys (arr (cons v rest)) = true
has_keys (str s) = not (is_blank s)
has_keys _ = false

abbrev pub is_testing : SubmissionStage → Bool
is_testing testing = true
is_testing _ = false

-- The stages at which a tool was listed.
abbrev pub was_listed : SubmissionStage → Bool
was_listed listed = true
was_listed revoked = true
was_listed _ = false

unfoldable pub input_type_name : InputType → Text
input_type_name InputType.text = codes "text"
input_type_name InputType.image = codes "image"
input_type_name InputType.json = codes "json"
input_type_name InputType.csv = codes "csv"
input_type_name InputType.url = codes "url"
input_type_name InputType.file = codes "file"

unfoldable pub output_type_name : OutputType → Text
output_type_name OutputType.json = codes "json"
output_type_name OutputType.text = codes "text"
output_type_name OutputType.image = codes "image"
output_type_name OutputType.csv = codes "csv"
output_type_name OutputType.file = codes "file"

module _ (to_lower : Text → Text) where
  unfoldable pub source_of : Tool → Text
  source_of tool =
      to_lower ((tool.entry_command or_else []) ++ (codes " " ++ (tool.documentation or_else [])))

  unfoldable pub infer_language : Tool → Text
  infer_language tool =
      let source = source_of tool in
      if includes (codes "python") source
      then codes "Python"
      else if includes (codes "node") source
          || includes (codes "typescript") source
          || includes (codes "javascript") source
      then codes "TypeScript"
      else if includes (codes "go") source
      then codes "Go"
      else if includes (codes "rust") source
      then codes "Rust"
      else codes "Unknown"

  unfoldable pub infer_tech_stack : Tool → List Text
  unfolding push_if
  infer_tech_stack tool =
      let source = source_of tool in
      push_if source (codes "redis") (codes "Redis") (
        push_if source (codes "javascript") (codes "JavaScript") (
          push_if source (codes "typescript") (codes "TypeScript") (
            push_if source (codes "node") (codes "Node.js") (
              push_if source (codes "flask") (codes "Flask") (
                push_if source (codes "fastapi") (codes "FastAPI")
                  (push_if source (codes "python") (codes "Python") []))))))

unfoldable pub value_of_type : Option Text → Text
value_of_type none = codes "Not provided"
value_of_type (some name) = if is_blank name then codes "Not provided" else name ++ codes " value"

unfoldable pub describe_contract : (Json → Text) → Option Json → Option Text → Text
describe_contract pretty none type = value_of_type type
describe_contract pretty (some schema) type =
    if has_keys schema then pretty schema else value_of_type type

-- What the platform provides here.
pub record Formats : Type 0 where
  pub to_lower : Text → Text
  pub pretty : Json → Text
  pub cents : Text → ℕ
  pub double : Text → ℕ

unfoldable pub pricing_model_of : OwnershipType → PricingModel
pricing_model_of full_sale = buy
pricing_model_of OwnershipType.royalty = royalty

unfoldable pub live_of : Formats → Tool → LiveMonitoring
live_of js tool = record {
  api_calls_total = tool.total_requests;
  last_updated_at = tool.updated_at;
  uptime_pct = map_some js.double tool.uptime_percentage;
}

unfoldable pub tool_to_submission_record :
    Formats → Tool → Option ToolProcessingJob → SubmissionRecord
tool_to_submission_record js tool job =
    let stage = to_submission_stage tool.status job in
    let last_error = bind_some job (λ j. j.last_error) in
    record {
      id = tool.id;
      name = tool.name;
      slug = tool.slug;
      github_url = tool.github_url or_else [];
      submitter_email = tool.seller.username;
      language = infer_language js.to_lower tool;
      category = tool.category;
      tech_stack = infer_tech_stack js.to_lower tool;
      description = tool.description;
      inputs =
          describe_contract js.pretty tool.input_schema (map_some input_type_name tool.input_type);
      outputs =
          describe_contract js.pretty tool.output_schema
            (map_some output_type_name tool.output_type);
      pricing_model = pricing_model_of tool.ownership_type;
      price_cents =
          js.cents (first_some tool.one_time_price tool.price_per_request or_else codes "0");
      submitted_at = tool.created_at;
      stage = stage;
      metrics = zero_metrics tool.updated_at;
      metrics_available = false;
      reviewer_notes = first_some last_error tool.processing_error;
      rejection_reason = first_some last_error tool.processing_error;
      live = if was_listed stage then some (live_of js tool) else none;
      testing_started_at =
          if is_testing stage
          then some (
              first_some (bind_some job (λ j. j.started_at)) (bind_some job (λ j. j.enqueued_at))
              or_else tool.updated_at)
          else none;
      processing_job = map_some submission_job job;
    }
