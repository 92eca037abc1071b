-- ===== src/Admin.antt =====
-- The operations of apps/web/src/app/admin/page.tsx behind its gate, which is that of Access: the lists
-- of users, jobs, payment events and audit entries, and what an admin does to them.
pub mod Handlers
pub mod Laws
mod Tests
use startup.Common.{ℕ, Bool, Option, none, List, [], Text}
use startup.Json.{Json}

pub data UserRole : Type 0 where
  seller buyer both admin : UserRole

pub data JobStatus : Type 0 where
  queued running retrying succeeded failed : JobStatus

pub data StripeWebhookStatus : Type 0 where
  queued processing retrying succeeded failed : StripeWebhookStatus

pub record AdminUser : Type 0 where
  pub id : Text
  pub email : Text
  pub username : Text
  pub display_name : Text
  pub role : UserRole
  pub is_active : Bool
  pub created_at : Option Text

pub record AdminProcessingJob : Type 0 where
  pub id : Text
  pub tool_id : Text
  pub seller_id : Text
  pub status : JobStatus
  pub trigger : Text
  pub attempts : ℕ
  pub max_attempts : ℕ
  pub last_error : Option Text
  pub created_at : Text
  pub tool_name : Option Text
  pub tool_slug : Option Text
  pub tool_status : Option Text
  pub seller_email : Option Text

pub record AdminStripeWebhookEvent : Type 0 where
  pub id : Text
  pub event_type : Text
  pub status : StripeWebhookStatus
  pub attempts : ℕ
  pub max_attempts : ℕ
  pub last_error : Option Text
  pub enqueued_at : Option Text
  pub finished_at : Option Text
  pub created_at : Text
  pub updated_at : Text
  pub retryable : Bool

pub record AdminAuditLog : Type 0 where
  pub id : Text
  pub admin_id : Text
  pub admin_email : Option Text
  pub action : Text
  pub target_type : Text
  pub target_id : Option Text
  pub details : Option Json
  pub created_at : Text

pub data HealthStatus : Type 0 where
  healthy degraded : HealthStatus

pub record Queue : Type 0 where
  pub name : Text
  pub depth : Option ℕ
  pub depth_threshold : ℕ
  pub worker_heartbeat : Bool
  pub worker_health_check_key : Text

-- The counts of the processing jobs, and those of the payment events.
pub record FailureCounts : Type 0 where
  pub stuck_active : ℕ
  pub failed_recent : ℕ
  pub stale_after_seconds : ℕ
  pub failed_threshold : ℕ
  pub failed_window_seconds : ℕ

pub record AdminOperationsHealth : Type 0 where
  pub status : HealthStatus
  pub checks : List (Text × Text)
  pub queue : Queue
  pub processing_jobs : FailureCounts
  pub stripe_webhooks : FailureCounts

pub data LoadStatus : Type 0 where
  loading ready error : LoadStatus

-- The `useState` variables.
pub record Operations : Type 0 where
  pub users : List AdminUser
  pub jobs : List AdminProcessingJob
  pub stripe_events : List AdminStripeWebhookEvent
  pub audit_logs : List AdminAuditLog
  pub health : Option AdminOperationsHealth
  pub status : LoadStatus
  pub notice : Option Text

unfoldable pub first_operations : Operations
first_operations = record {
  users = [];
  jobs = [];
  stripe_events = [];
  audit_logs = [];
  health = none;
  status = loading;
  notice = none;
}
