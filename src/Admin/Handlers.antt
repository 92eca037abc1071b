-- ===== src/Admin/Handlers.antt =====
-- The loading of the operations, and the three actions of an admin.
use startup.Common.{
  ℕ, Bool, true, false, not, Option, none, some, List, ◌∷◌, ◌++◌, map, keep, length, if◌then◌else◌,
  ◌or_else◌, Text, codes, text_eq,
}
use startup.Json.{Json, bool, str, obj, member, end}
use startup.Admin.{
  AdminUser, AdminProcessingJob, JobStatus, AdminStripeWebhookEvent, StripeWebhookStatus,
  AdminAuditLog, AdminOperationsHealth, loading, ready, error, Operations,
}

-- How a request ends: with its answer, or with the message of an `ApiError`, or with another error.
pub data Reply (A : Type 0) : Type 0 where
  got : A → Reply A
  threw : Option Text → Reply A

-- The five answers that are loaded at once.
pub record Loaded : Type 0 where
  pub health : AdminOperationsHealth
  pub users : List AdminUser
  pub jobs : List AdminProcessingJob
  pub stripe_events : List AdminStripeWebhookEvent
  pub audit_logs : List AdminAuditLog

-- `load` before it awaits.
unfoldable pub begin_load : Operations → Operations
begin_load s = record s { status = loading; notice = none }

unfoldable pub end_load : Reply Loaded → Operations → Operations
end_load (got l) s = record s {
  health = some l.health;
  users = l.users;
  jobs = l.jobs;
  stripe_events = l.stripe_events;
  audit_logs = l.audit_logs;
  status = ready;
}
end_load (threw message) s = record s {
  status = error;
  notice = some (message or_else codes "Could not load admin operations data.");
}

-- An action before it awaits.
unfoldable pub begin_action : Operations → Operations
begin_action s = record s { notice = none }

pub record Sent : Type 0 where
  pub path : Text
  pub body : Json

unfoldable pub update_request : AdminUser → Bool → Sent
update_request user is_active = record {
  path = codes "/admin/users/" ++ user.id;
  body = obj (member (codes "is_active") (bool is_active) end);
}

-- `item.id === updated.id ? updated : item`
unfoldable pub take_user : AdminUser → AdminUser → AdminUser
take_user updated item = if text_eq item.id updated.id then updated else item

unfoldable pub activity_name : Bool → Text
activity_name active = if active then codes "active" else codes "suspended"

-- `updateUser` behind its PATCH.
unfoldable pub end_update_user : Reply AdminUser → Operations → Operations
end_update_user (got updated) s = record s {
  users = map (take_user updated) s.users;
  notice =
      some (updated.email ++ (codes " is now " ++ (activity_name updated.is_active ++ codes ".")));
}
end_update_user (threw message) s = record s {
  notice = some (message or_else codes "Could not update this user.");
}

abbrev reason_body : Json
reason_body =
    obj (member (codes "reason") (str (codes "Retried from admin operations dashboard")) end)

unfoldable pub retry_job_request : AdminProcessingJob → Sent
retry_job_request job = record {
  path = codes "/admin/processing-jobs/" ++ (job.id ++ codes "/retry");
  body = reason_body;
}

unfoldable pub other_job : AdminProcessingJob → AdminProcessingJob → Bool
other_job retried item = not (text_eq item.id retried.id)

-- `retryJob` behind its POST: the list, the notice, and the beginning of a load.
unfoldable pub end_retry_job : Reply AdminProcessingJob → Operations → Operations
end_retry_job (got retried) s = begin_load (record s {
  jobs = retried ∷ keep (other_job retried) s.jobs;
  notice =
      some
        (codes "Queued retry for " ++ ((retried.tool_name or_else retried.tool_id) ++ codes "."));
})
end_retry_job (threw message) s = record s {
  notice = some (message or_else codes "Could not retry this job.");
}

unfoldable pub retry_event_request : AdminStripeWebhookEvent → Sent
retry_event_request event = record {
  path = codes "/admin/stripe-webhooks/" ++ (event.id ++ codes "/retry");
  body = reason_body;
}

unfoldable pub take_event :
    AdminStripeWebhookEvent → AdminStripeWebhookEvent → AdminStripeWebhookEvent
take_event retried item = if text_eq item.id retried.id then retried else item

-- `retryStripeEvent` behind its POST.
unfoldable pub end_retry_event : Reply AdminStripeWebhookEvent → Operations → Operations
end_retry_event (got retried) s = begin_load (record s {
  stripe_events = map (take_event retried) s.stripe_events;
  notice = some (
      codes "Queued retry for "
      ++ (retried.event_type ++ (codes " (" ++ (retried.id ++ codes ")."))));
})
end_retry_event (threw message) s = record s {
  notice = some (message or_else codes "Could not retry this Stripe event.");
}

abbrev has_failed : JobStatus → Bool
has_failed JobStatus.failed = true
has_failed _ = false

abbrev event_has_failed : StripeWebhookStatus → Bool
event_has_failed StripeWebhookStatus.failed = true
event_has_failed _ = false

unfoldable pub failed_jobs : Operations → ℕ
failed_jobs s = length (keep (λ (job : AdminProcessingJob). has_failed job.status) s.jobs)

unfoldable pub failed_stripe_events : Operations → ℕ
failed_stripe_events s =
    length (keep (λ (e : AdminStripeWebhookEvent). event_has_failed e.status) s.stripe_events)

unfoldable pub suspended_users : Operations → ℕ
suspended_users s = length (keep (λ (user : AdminUser). not user.is_active) s.users)
