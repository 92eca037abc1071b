-- ===== src/Approver/Tests.antt =====
-- The dashboard of the reviewers at concrete inputs.
use startup.Common.{◌≡◌, true, none, [], ◌∷◌, map}
use startup.Marketplace.{Tool, nlp}
use startup.Marketplace.Samples.{sample_tool}
use startup.Submission.Adapter.{tool_to_submission_record}
use startup.Submission.Samples.{formats, sample_job}
use startup.Approver.{ready, Dashboard, loading, loaded, end_load}
use startup.Approver.QueueLaws.{first_job, end_load_lem}

abbrev tool : Tool
tool = sample_tool "Digest" "a summarizer of text" nlp 3

abbrev empty : Dashboard
empty = record {
  submissions = [];
  queue_status = loading;
  queue_error = none;
  focus_id = none;
  toast = none;
}

end_load_lem_example :
    ((end_load formats true (loaded (tool ∷ []) (sample_job ∷ sample_job ∷ [])) empty).submissions
      ≡ map
          (λ t. tool_to_submission_record formats t (first_job t.id (sample_job ∷ sample_job ∷ [])))
          (tool ∷ []))
    × ((end_load formats true
          (loaded (tool ∷ []) (sample_job ∷ sample_job ∷ []))
          empty).queue_status
        ≡ ready)
end_load_lem_example = end_load_lem formats true (tool ∷ []) (sample_job ∷ sample_job ∷ []) empty
