-- ===== src/Status/Stages.antt =====
-- The stages of a submission, and what the page says of them.
use startup.Common.{
  ℕ, ◌+◌, Bool, true, false, not, ◌&&◌, Option, none, some, List, [], ◌∷◌, if◌then◌else◌, ltb, leb,
  ◌==◌, Text, codes,
}
use startup.Submission.{SubmissionStage, submitted, testing, manual_review, listed}
use startup.Status.{StageDef}

-- `STAGES`
unfoldable pub stages : List StageDef
stages =
    record {
      id = submitted;
      label = codes "Submitted";
      blurb = codes "Repo cloned, metadata extracted";
    }
    ∷ record {
      id = testing;
      label = codes "Processing";
      blurb = codes "A durable worker prepares and validates your submission";
    }
    ∷ record {
      id = manual_review;
      label = codes "Manual Review";
      blurb = codes "Assigned to a reviewer";
    }
    ∷ record {
      id = listed;
      label = codes "Listed";
      blurb = codes "Your tool is live on the marketplace";
    }
    ∷ []

-- `a === b` of two stages.
unfoldable pub stage_eq : SubmissionStage → SubmissionStage → Bool
stage_eq submitted submitted = true
stage_eq testing testing = true
stage_eq manual_review manual_review = true
stage_eq listed listed = true
stage_eq SubmissionStage.rejected SubmissionStage.rejected = true
stage_eq SubmissionStage.revoked SubmissionStage.revoked = true
stage_eq _ _ = false

-- `findIndex`, from an index on; -1 is `none`.
unfoldable pub find_index : SubmissionStage → List StageDef → ℕ → Option ℕ
find_index stage [] i = none
find_index stage (s ∷ rest) i =
    if stage_eq s.id stage then some i else find_index stage rest (i + 1)

unfoldable pub stage_index : SubmissionStage → Option ℕ
stage_index SubmissionStage.rejected = find_index manual_review stages 0
stage_index SubmissionStage.revoked = find_index listed stages 0
stage_index stage = find_index stage stages 0

pub data StageState : Type 0 where
  complete current pending rejected revoked : StageState

abbrev is_before : ℕ → Option ℕ → Bool
is_before i none = false
is_before i (some active) = ltb i active

abbrev is_at : ℕ → Option ℕ → Bool
is_at i none = false
is_at i (some active) = i == active

-- The state of the row at an index.
unfoldable pub row_state : SubmissionStage → ℕ → StageState
row_state stage i =
    if is_before i (stage_index stage)
    then complete
    else if not (stage_eq stage SubmissionStage.rejected)
        && (not (stage_eq stage SubmissionStage.revoked) && is_at i (stage_index stage))
    then current
    else if stage_eq stage SubmissionStage.rejected && is_at i (stage_index stage)
    then StageState.rejected
    else if stage_eq stage SubmissionStage.revoked && is_at i (stage_index stage)
    then StageState.revoked
    else pending

-- The rows, from an index on.
unfoldable pub rows : SubmissionStage → List StageDef → ℕ → List StageState
rows stage [] i = []
rows stage (s ∷ rest) i = row_state stage i ∷ rows stage rest (i + 1)

abbrev pub pill_label : StageState → Text
pill_label complete = codes "✓ Complete"
pill_label current = codes "⏳ In progress"
pill_label pending = codes "Pending"
pill_label StageState.rejected = codes "✗ Rejected"
pill_label StageState.revoked = codes "Paused"

-- The title of the next steps.
unfoldable pub next_title : SubmissionStage → Text
next_title SubmissionStage.rejected = codes "Address feedback and resubmit"
next_title SubmissionStage.revoked = codes "Your listing is paused"
next_title listed = codes "You're live!"
next_title testing = codes "Processing is underway"
next_title _ = codes "Waiting on review"

-- The links of the next steps: that to the listing is there for a listed tool only.
unfoldable pub next_links : SubmissionStage → List Text
next_links listed =
    codes "View your listing →" ∷ codes "Open dashboard" ∷ codes "Submit another build" ∷ []
next_links _ = codes "Open dashboard" ∷ codes "Submit another build" ∷ []

-- The colour of a score, which is a natural number.
unfoldable pub score_color : ℕ → Text
score_color n =
    if leb 80 n then codes "#16a34a" else if leb 60 n then codes "#d97706" else codes "#dc2626"
