-- ===== src/Status.antt =====
-- apps/web/src/app/submit/[id]/status/page.tsx: the page on which a seller follows a submission. Load
-- is its effect with the polling, Stages what it says of the stages.
pub mod Load
pub mod Stages
pub mod Laws
mod Tests
use startup.Common.{ℕ, Bool, Option, List, Text}
use startup.Submission.{SubmissionStage, SubmissionRecord}

pub record StageDef : Type 0 where
  pub id : SubmissionStage
  pub label : Text
  pub blurb : Text

-- The `useState` variables; what the last effect knows of the account; its number;
-- and the numbers of the effects that made a request, one for each.
pub record Account : Type 0 where
  pub is_loaded : Bool
  pub is_signed_in : Bool

pub record State : Type 0 where
  pub submission : Option SubmissionRecord
  pub loaded : Bool
  pub load_error : Option Text
  pub account : Account
  pub effect : ℕ
  pub requests : List ℕ
