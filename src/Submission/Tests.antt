-- ===== src/Submission/Tests.antt =====
-- The theorems on submission records at a concrete tool and job.
use startup.Common.{codes, ◌≡◌, ◌⊎◌, ◌↔◌, some}
use startup.Marketplace.{Tool, ToolStatus, live, processing, nlp}
use startup.Marketplace.Samples.{sample_tool}
use startup.Submission.Names.{sanitize_name}
use startup.Submission.NameLaws.{NoTag, sanitize_name-NoTag}
use startup.Submission.Samples.{sample_job}
use startup.Submission.{listed, testing, rejected}
use startup.Submission.Adapter.{to_submission_stage}
use startup.Submission.AdapterLaws.{IsQuiet, IsUnderWay, HasFailed, to_submission_stage_iff}

to_submission_stage_iff_example :
    ((to_submission_stage live (some sample_job) ≡ listed)
      ↔ ((live ≡ live) × IsQuiet (some sample_job)))
    × ((to_submission_stage live (some sample_job) ≡ testing)
        ↔ (IsUnderWay (some sample_job) ⊎ ((live ≡ processing) × IsQuiet (some sample_job))))
    × ((to_submission_stage live (some sample_job) ≡ rejected) ↔ (
        HasFailed (some sample_job) ⊎ ((live ≡ ToolStatus.rejected) × IsQuiet (some sample_job))))
to_submission_stage_iff_example = to_submission_stage_iff live (some sample_job)

abbrev tool : Tool
tool = sample_tool "Digest" "a summarizer of text" nlp 3

sanitize_name-NoTag_example : NoTag (sanitize_name (some (codes "<<b>Tool&lt;i> 1 < 2")))
sanitize_name-NoTag_example = sanitize_name-NoTag (some (codes "<<b>Tool&lt;i> 1 < 2"))
