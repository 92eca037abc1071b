-- ===== src/Approver/Review.antt =====
-- `updateToolReviewStatus`, and the panels whose buttons call it.
use startup.Common.{
  Bool, true, false, Option, none, some, [], ◌++◌, if◌then◌else◌, ◌or_else◌, is_some, Text, codes,
  is_blank, trim,
}
use startup.Json.{Json, null, str, obj, member, end}
use startup.Submission.{manual_review, listed, SubmissionRecord}
use startup.Approver.{Dashboard, begin_load}

pub data Decision : Type 0 where
  approve reject revoke : Decision

pub record Patch : Type 0 where
  pub path : Text
  pub body : Json

abbrev pub status_of : Decision → Text
status_of approve = codes "live"
status_of reject = codes "rejected"
status_of revoke = codes "paused"

-- The body names a processing error in any case: all three calls give one.
unfoldable pub patch_of : SubmissionRecord → Decision → Json → Patch
patch_of r decision processing_error = record {
  path = codes "/admin/tools/" ++ (r.id ++ codes "/review");
  body = obj (
      member (codes "status") (str (status_of decision))
        (member (codes "processing_error") processing_error end));
}

-- The reason that a panel gives on: `doReject` and `doRevoke` return where it is blank.
unfoldable pub reason_of : Decision → Text → Option Json
reason_of approve reason = some null
reason_of reject reason = if is_blank (trim reason) then none else some (str (trim reason))
reason_of revoke reason = if is_blank (trim reason) then none else some (str (trim reason))

-- Which panel stands for a submission, and what its buttons offer: the live panel has its button
-- only where there are listing details.
unfoldable pub offers : SubmissionRecord → Decision → Bool
offers r decision = elim r.stage [
  | manual_review ↦ elim decision [ approve ↦ true | reject ↦ true | revoke ↦ false ]
  | listed ↦ elim decision [ approve ↦ false | reject ↦ false | revoke ↦ is_some r.live ]
  | _ ↦ false
]

-- The request that a reviewer can bring about for the submission in focus.
unfoldable pub decide : SubmissionRecord → Decision → Text → Option Patch
decide r decision reason =
    if offers r decision
    then (elim (reason_of decision reason) [
      | none ↦ none
      | some processing_error ↦ some (patch_of r decision processing_error)
    ])
    else none

unfoldable pub success_message : SubmissionRecord → Decision → Text
success_message r approve = codes "Approved " ++ (r.name ++ codes " — now live on the marketplace.")
success_message r reject = codes "Rejected " ++ (r.name ++ codes ".")
success_message r revoke = codes "Revoked " ++ (r.name ++ codes ".")

-- How the PATCH ends: well, or with the message of an `ApiError`, or with another error.
pub data Patched : Type 0 where
  patched : Patched
  not_patched : Option Text → Patched

-- Behind the PATCH: the toast, and the beginning of the reload, if it went well.
unfoldable pub end_review : SubmissionRecord → Decision → Patched → Dashboard → Dashboard
end_review r decision patched s =
    begin_load false (record s { toast = some (success_message r decision) })
end_review r decision (not_patched message) s = record s {
  toast = some (message or_else codes "Could not update this tool. Try again.");
}

-- The state of a panel with a reason: that of the review or that of the live panel.
pub record ReasonPanel : Type 0 where
  pub is_open : Bool
  pub reason : Text
  pub is_pending : Bool

unfoldable pub begin_decision : ReasonPanel → ReasonPanel
begin_decision p = if is_blank (trim p.reason) then p else record p { is_pending = true }

-- The call never throws, so the panel is cleared however the PATCH ended.
unfoldable pub end_decision : ReasonPanel → ReasonPanel
end_decision p = record p { is_open = false; reason = []; is_pending = false }
