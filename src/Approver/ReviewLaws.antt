-- ===== src/Approver/ReviewLaws.antt =====
-- Which decisions a reviewer can make about which tools.
use startup.Common.{◌≡◌, ◌⊎◌, false, Option, some, ◌++◌, Text, codes, is_blank, trim}
use startup.Marketplace.{Tool, ToolStatus, draft, live, ToolProcessingJob}
use startup.Json.{Json, null, str, get}
use startup.Submission.AdapterLaws.{IsQuiet}
use startup.Approver.Review.{Decision, approve, reject, revoke, Patch, status_of}

-- The status of a tool about which a decision is made.
abbrev pub decidable_status : Decision → ToolStatus
decidable_status approve = draft
decidable_status reject = draft
decidable_status revoke = live

-- A request of a reviewer about a tool: for its status, its path, and what it says.
pub record IsDecided (tool : Tool) (job : Option ToolProcessingJob) (decision : Decision)
    (reason : Text) (p : Patch) : Type 0 where
  pub status : tool.status ≡ decidable_status decision
  pub quiet : IsQuiet job
  pub path : p.path ≡ codes "/admin/tools/" ++ (tool.id ++ codes "/review")
  pub named : get (codes "status") p.body ≡ some (str (status_of decision))
  pub reasoned :
      ((decision ≡ approve) × (get (codes "processing_error") p.body ≡ some null))
      ⊎ ((is_blank (trim reason) ≡ false)
          × (get (codes "processing_error") p.body ≡ some (str (trim reason))))
