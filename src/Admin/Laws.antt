-- ===== src/Admin/Laws.antt =====
-- What the actions of an admin do to the lists.
use startup.Common.{
  ◌≡◌, ◌⊎◌, refl, true, false, none, List, [], ◌∷◌, keep, All, All-map, All-mem, Bool-cases, inl,
  inr, Text, text_eq,
}
use mathlib.Core.List.{Memᴰ}
use mathlib.Core.List.Memᴰ
use startup.Admin.{AdminProcessingJob, Operations}
use startup.Admin.Handlers.{got, begin_load, other_job, end_retry_job}

-- Another job than the one with the ID.
abbrev pub IsOther : Text → AdminProcessingJob → Type 0
IsOther id job = text_eq job.id id ≡ false

keep-IsOther :
    (retried : AdminProcessingJob) (jobs : List AdminProcessingJob)
    → All (IsOther retried.id) (keep (other_job retried) jobs)
unfolding other_job
keep-IsOther retried [] = tt
keep-IsOther retried (job ∷ jobs) = elim (Bool-cases (text_eq job.id retried.id)) [
  | inl e ↦ rw (e, other_job) (keep-IsOther retried jobs)
  | inr e ↦ rw (e, other_job) (e, keep-IsOther retried jobs)
]

-- A job that has the ID, or is in a list.
abbrev pub IsKept : Text → List AdminProcessingJob → AdminProcessingJob → Type 0
IsKept id jobs job = (text_eq job.id id ≡ true) ⊎ Memᴰ job jobs

keep-mem :
    (retried j : AdminProcessingJob) (jobs : List AdminProcessingJob)
    → IsOther retried.id j
    → Memᴰ j jobs
    → Memᴰ j (keep (other_job retried) jobs)
unfolding other_job
keep-mem retried j [] other m = absurd (Memᴰ.not-nil m)
keep-mem retried j (job ∷ jobs) other (Memᴰ.head same) =
    let e : text_eq job.id retried.id ≡ false = rw (← same) other in
    rw (e, other_job) (Memᴰ.head same)
keep-mem retried j (job ∷ jobs) other (Memᴰ.tail m) =
    let below = keep-mem retried j jobs other m in
    elim (Bool-cases (text_eq job.id retried.id)) [
      | inl e ↦ rw (e, other_job) below
      | inr e ↦ rw (e, other_job) (Memᴰ.tail below)
    ]

keep-IsKept :
    (retried : AdminProcessingJob) (jobs : List AdminProcessingJob)
    → All (IsKept retried.id (keep (other_job retried) jobs)) jobs
keep-IsKept retried jobs =
    All-map (λ j. Memᴰ j jobs) (IsKept retried.id (keep (other_job retried) jobs))
      (λ j m. elim (Bool-cases (text_eq j.id retried.id)) [
        | inl e ↦ inl e
        | inr e ↦ inr (keep-mem retried j jobs e m)
      ])
      jobs (All-mem jobs)

-- A job that has been retried stands first, and once only; every other job stays in the list. But the
-- notice of the retry is gone at once, since the load that begins behind it clears it.
pub end_retry_job_lem :
    (retried : AdminProcessingJob) (s : Operations)
    → (rest : List AdminProcessingJob) × ((end_retry_job (got retried) s).jobs ≡ retried ∷ rest)
      × All (IsOther retried.id) rest
      × All (IsKept retried.id rest) s.jobs
      × ((end_retry_job (got retried) s).notice ≡ none)
unfolding end_retry_job begin_load
end_retry_job_lem retried s = (
  keep (other_job retried) s.jobs,
  refl,
  keep-IsOther retried s.jobs,
  keep-IsKept retried s.jobs,
  refl,
)
