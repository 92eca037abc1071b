-- ===== src/Approver/FocusLaws.antt =====
-- The focus of the dashboard is always on a submission that is there, and is not taken away.
use startup.Common.{
  ◌≡◌, refl, ◌∙◌, Bool, true, false, not, Option, none, some, List, [], ◌∷◌, arith, Bool-cases,
  Option-cases, inl, inr, ◌⊎◌, find?, any, keep, is_some, Text, text_eq, text_eq_refl, truthy,
}
use mathlib.Core.Option.{some-injective}
use startup.Submission.{SubmissionRecord}
use startup.Approver.{
  Dashboard, is_testing, is_in_review, is_listed, testing_of, review_queue_of, live_of, first_id,
  or_first, default_focus_id, is_submission, lost_focus, choose_focus, focused,
}

-- Some submission has the ID.
abbrev HasId : List SubmissionRecord → Text → Type 0
HasId rs id = any (λ r. text_eq r.id id) rs ≡ true

find?-some :
    (rs : List SubmissionRecord) (id : Text)
    → is_some (find? (λ r. text_eq r.id id) rs) ≡ any (λ r. text_eq r.id id) rs
find?-some [] id = refl
find?-some (r ∷ rs) id = elim (Bool-cases (text_eq r.id id)) [
  | inl e ↦ rw e refl
  | inr e ↦ rw e (find?-some rs id)
]

first_id-keep :
    (p : SubmissionRecord → Bool) (rs : List SubmissionRecord) (id : Text)
    → first_id (keep p rs) ≡ some id
    → HasId rs id
unfolding first_id
first_id-keep p [] id h = cc
first_id-keep p (r ∷ rs) id h = elim (Bool-cases (p r)) [
  | inl e ↦
      let q : r.id ≡ id = some-injective _ _ (rw e at h) in rw (← q) (rw (text_eq_refl r.id) refl)
  | inr e ↦ ground (arith, first_id-keep p rs id (rw e at h))
]

or_first-cases :
    (a b : Option Text) (id : Text) → or_first a b ≡ some id → (a ≡ some id) ⊎ (b ≡ some id)
unfolding or_first
or_first-cases none b id h = inr h
or_first-cases (some a) b id h = inl h

default_focus_id-HasId :
    (s : Dashboard) (id : Text) → default_focus_id s ≡ some id → HasId s.submissions id
unfolding default_focus_id testing_of review_queue_of live_of
default_focus_id-HasId s id h =
    elim (or_first-cases (first_id (review_queue_of s))
      (or_first (first_id (testing_of s)) (first_id (live_of s))) id h) [
        | inl e ↦ first_id-keep (λ r. is_in_review r.stage) s.submissions id e
        | inr f ↦ elim (or_first-cases (first_id (testing_of s)) (first_id (live_of s)) id f) [
          | inl e ↦ first_id-keep (λ r. is_testing r.stage) s.submissions id e
          | inr e ↦ first_id-keep (λ r. is_listed r.stage) s.submissions id e
        ]
      ]

truthy-default :
    (o : Option Text) (id : Text)
    → truthy o ≡ some id
    → (o ≡ some id) × (truthy (some id) ≡ some id)
unfolding truthy
truthy-default none id h = cc
truthy-default (some []) id h = cc
truthy-default (some (c ∷ s)) id h = (h, rw (← some-injective _ _ h) refl)

focused-lost_focus : (s : Dashboard) → is_some (focused s) ≡ not (lost_focus s)
unfolding focused lost_focus is_submission
focused-lost_focus s = elim (Option-cases (truthy s.focus_id)) [
  | inl e ↦ rw (e, focused) (rw (e, lost_focus) refl)
  | inr (id, e) ↦ rw (e, focused) (rw (e, lost_focus) (find?-some s.submissions id ∙ ground arith))
]

-- If there is a submission to review, to wait for or to watch, then the effect leaves one in focus
-- that is in the list; and it changes nothing if one was in focus before.
pub choose_focus_lem :
    (s : Dashboard) (id : Text)
    → truthy (default_focus_id s) ≡ some id
    → (is_some (focused (choose_focus s)) ≡ true)
      × ((choose_focus s ≡ s) ⊎ (is_some (focused s) ≡ false))
unfolding choose_focus focused
choose_focus_lem s id h = elim (Bool-cases (lost_focus s)) [
  | inl lost ↦
      let (is_default, kept) = truthy-default (default_focus_id s) id h in
      rw (h, choose_focus)
        (rw (lost, choose_focus)
          (
            rw (kept, focused)
                (find?-some s.submissions id ∙ default_focus_id-HasId s id is_default),
            inr (focused-lost_focus s ∙ rw lost refl),
          ))
  | inr there ↦
      rw (h, choose_focus)
        (rw (there, choose_focus) (focused-lost_focus s ∙ rw there refl, inl refl))
]
