-- ===== src/Demo/SessionLaws.antt =====
-- The limit of a session, with runs that overlap.
use startup.Common.{
  ℕ, zero, suc, ◌+◌, ◌≤◌, ◌≡◌, refl, Bool, true, false, ◌||◌, Option, none, some, is_some, List, [],
  ◌∷◌, arith, Bool-cases, Option-cases, inl, inr, Text,
}
use startup.Demo.{Browser}
use startup.Demo.Payload.{Form, build_payload}
use startup.Demo.Reply.{parse_response}
use startup.Demo.Page.{
  Page, opened, one_if, Event, pressed, timer_fired, answered, is_served, with_call, run_itself,
  take_one, handle, run_all,
}
use startup.Demo.Session.{
  session_limit, Session, read_session_count, increment_session_count, is_session_limited, Answer,
  answer, no_answer, Demo, Call, started, thrown, Faults, counted, finish, take_answer, begin_demo,
  press,
}

module _ (js : Browser) (demo : Demo) (faults : Faults) where
  -- The page shows the stored count, which has grown by the calls that were served; the calls under
  -- way are the one that the page waits for and one more, if the timer has fired; and together with
  -- the count they are within the limit, but for one more in that case.
  pub record Counts (used : ℕ) (p : Page) : Type 0 where
    pub stored : read_session_count p.session ≡ p.session.calls_used
    pub added_up : p.session.calls_used ≡ p.served + used
    pub waited : p.under_way ≤ one_if p.session.is_running + one_if p.ran_itself
    pub limited : p.under_way + p.session.calls_used ≤ session_limit + one_if p.ran_itself

  take_answer-counts :
      (reply : Answer) (s : Session)
      → read_session_count s ≡ s.calls_used
      → (read_session_count (take_answer js demo faults reply s)
          ≡ (take_answer js demo faults reply s).calls_used)
        × ((take_answer js demo faults reply s).calls_used
            ≡ one_if (is_served js demo faults reply) + s.calls_used)
        × ((take_answer js demo faults reply s).is_running ≡ false)
  unfolding is_served take_answer finish thrown counted increment_session_count read_session_count
  take_answer-counts (no_answer message) s h = ground arith
  take_answer-counts (answer res elapsed_ms) s h = elim (Option-cases (parse_response js res)) [
    | inl e ↦ ground arith
    | inr (data_, e) ↦ ground arith
  ]

  -- A run makes a call below the limit only, and is running then; it keeps the counts.
  pub record Begins (s t : Session) (call : Option Call) : Type 0 where
    pub stored : read_session_count t ≡ read_session_count s
    pub used : t.calls_used ≡ s.calls_used
    pub made : is_some call ≡ true → (t.is_running ≡ true) × (suc s.calls_used ≤ session_limit)

  begin_demo-Begins :
      (form : Form js) (id : Text) (s : Session)
      → Begins s (begin_demo js demo faults form id s).0 (begin_demo js demo faults form id s).1
  unfolding begin_demo is_session_limited started thrown read_session_count
  begin_demo-Begins form id s = elim (Bool-cases (is_session_limited s)) [
    | inl full ↦ record { stored = ground arith; used = ground arith; made = λ h. ground arith }
    | inr free ↦ elim (Option-cases (build_payload js form)) [
      | inl e ↦ record { stored = ground arith; used = ground arith; made = λ h. ground arith }
      | inr (payload, e) ↦ record {
        stored = ground arith;
        used = ground arith;
        made = λ h. ground arith;
      }
    ]
  ]

  -- A run that is begun where the page waits for no call, or by the timer.
  with_call-Counts :
      (used : ℕ) (p : Page) (ran : Bool) (t : Session) (call : Option Call)
      → Counts used p
      → Begins p.session t call
      → p.under_way ≤ one_if ran
      → one_if p.ran_itself ≤ one_if ran
      → Counts used (with_call js demo faults (t, call) (record p { ran_itself = ran }))
  with_call-Counts used p ran t none v b low more =
      let stored = v.stored in
      let added_up = v.added_up in
      let limited = v.limited in
      let stored' = b.stored in
      let used' = b.used in
      record {
        stored = ground arith;
        added_up = ground arith;
        waited = omega arith;
        limited = omega arith;
      }
  with_call-Counts used p ran t (some call) v b low more =
      let stored = v.stored in
      let added_up = v.added_up in
      let stored' = b.stored in
      let used' = b.used in
      let (running, free) = b.made refl in
      record {
        stored = ground arith;
        added_up = ground arith;
        waited = ground arith;
        limited = omega arith;
      }

  take_one-Counts :
      (used n : ℕ) (reply : Answer) (p : Page)
      → p.under_way ≡ n
      → Counts used p
      → Counts used (take_one js demo faults reply n p)
  unfolding take_one
  take_one-Counts used zero reply p e v = v
  take_one-Counts used (suc n) reply p e v =
      let added_up = v.added_up in
      let limited = v.limited in
      let waited = v.waited in
      let (kept, added, ended) = take_answer-counts reply p.session v.stored in
      record {
        stored = kept;
        added_up = ground arith;
        waited = ground arith;
        limited = ground arith;
      }

  run_itself-Counts :
      (used : ℕ) (form : Form js) (id : Text) (p : Page)
      → Counts used p
      → Counts used (run_itself js demo faults form id p)
  unfolding run_itself
  run_itself-Counts used form id p v = elim (Bool-cases p.ran_itself) [
    | inl e ↦ simp (e, run_itself) v
    | inr e ↦
        let waited = v.waited in
        rw (e, run_itself)
          (with_call-Counts used p true _ _ v (begin_demo-Begins form id p.session) (ground arith)
            (ground arith))
  ]

  press-Counts :
      (used : ℕ) (form : Form js) (id : Text) (p : Page)
      → Counts used p
      → Counts used (with_call js demo faults (press js demo faults form id p.session) p)
  unfolding press
  press-Counts used form id p v =
      elim (Bool-cases (p.session.is_running || is_session_limited p.session)) [
        | inl e ↦
            rw (e, press)
              (record {
                stored = v.stored;
                added_up = v.added_up;
                waited = omega (arith, v.waited);
                limited = omega (arith, v.limited);
              })
        | inr e ↦
            let waited = v.waited in
            rw (e, press)
              (with_call-Counts used p p.ran_itself _ _ v (begin_demo-Begins form id p.session)
                (ground arith) (omega arith))
      ]

  handle-Counts :
      (used : ℕ) (e : Event js demo faults) (p : Page)
      → Counts used p
      → Counts used (handle js demo faults e p)
  unfolding handle
  handle-Counts used (answered reply) p v = take_one-Counts used p.under_way reply p refl v
  handle-Counts used (timer_fired form id) p v = run_itself-Counts used form id p v
  handle-Counts used (pressed form id) p v = press-Counts used form id p v

  run_from-Counts :
      (used : ℕ) (p : Page) (events : List (Event js demo faults))
      → Counts used p
      → Counts used (run_all js demo faults p events)
  unfolding run_all
  run_from-Counts used p [] v = v
  run_from-Counts used p (e ∷ es) v =
      run_from-Counts used (handle js demo faults e p) es (handle-Counts used e p v)

  -- In a session that starts with the count that the storage holds, within the limit: whatever runs
  -- are begun by the button and by the timer of the automatic run, and in whatever order they are
  -- answered, the page's count stays that of the storage and counts the served calls one by one; and
  -- the count and the calls under way are at most ten together until the timer has fired, and at most
  -- eleven behind it, when a run may be under way beside it.
  pub run_all-Counts :
      (s : Session) (events : List (Event js demo faults))
      → read_session_count s ≡ s.calls_used
      → s.calls_used ≤ session_limit
      → Counts s.calls_used (run_all js demo faults (opened s) events)
  run_all-Counts s events same le = run_from-Counts s.calls_used (opened s) events (record {
    stored = same;
    added_up = omega arith;
    waited = omega arith;
    limited = omega arith;
  })
