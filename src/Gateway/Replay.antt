-- ===== src/Gateway/Replay.antt =====
-- No request is let in twice, as long as its entry stands.
use startup.Common.{
  ℕ, ◌+◌, ◌≤◌, ◌<◌, ◌≡◌, refl, sym, ◌∙◌, true, false, some, List, [], ◌∷◌, length, ltb, All, arith,
  Bool-cases, inl, inr, Text, truthy, lt→ltb,
}
use mathlib.Core.Option.{some-injective}
use mathlib.Core.Path.{subst}
use startup.Gateway.{Platform, Request}
use startup.Gateway.Verifier.{
  Cache, Options, is_configured, remove_expired_replay_entries, expires_at, replay_key, admit,
  verify_request,
}
use startup.Gateway.CacheLaws.{
  IsHeld, IsHeld-wider, expires_at-IsHeld, remove-IsHeld, remember-IsHeld, remember-Absent,
  remove-Absent,
}
use startup.Gateway.Safety.{is_accepted, IsGenuine, outcome}

module _ (js : Platform) (o : Options) where
  -- Some requests, each with the time at which it comes.
  pub verify_all : List (Request × ℕ) → Cache → Cache
  verify_all [] cache = cache
  verify_all ((req, now) ∷ rest) cache = verify_all rest (verify_request js o req now cache).1

  admit-IsHeld :
      (key other : Text) (t k now : ℕ) (cache : Cache)
      → now < t
      → k + 2 ≤ o.max_replay_entries
      → IsHeld key t k cache
      → IsHeld key t (k + 1) (admit js o other now cache).1
  unfolding admit
  admit-IsHeld key other t k now cache live room held =
      let fresh = remove-IsHeld key t k now cache live held in
      elim (Bool-cases (ltb now (expires_at other (remove_expired_replay_entries cache now)))) [
        | inl e ↦ rw (e, admit) (IsHeld-wider key t k _ fresh)
        | inr e ↦
            rw (e, admit)
              (remember-IsHeld key other t (now + o.max_age_seconds) k o.max_replay_entries _ room
                fresh)
      ]

  admit-refused :
      (key : Text) (t k now : ℕ) (cache : Cache)
      → now < t
      → IsHeld key t k cache
      → is_accepted (admit js o key now cache).0 ≡ false
  unfolding admit
  admit-refused key t k now cache live held =
      let e : ltb now (expires_at key (remove_expired_replay_entries cache now)) ≡ true =
        lt→ltb now _
          (rw (expires_at-IsHeld key t k _ (remove-IsHeld key t k now cache live held)) live) in
      rw (e, admit) refl

  admit-first :
      (key : Text) (now : ℕ) (cache : Cache)
      → is_accepted (admit js o key now cache).0 ≡ true
      → IsHeld key (now + o.max_age_seconds) 0 (admit js o key now cache).1
  unfolding admit
  admit-first key now cache =
      elim (Bool-cases (ltb now (expires_at key (remove_expired_replay_entries cache now)))) [
        | inl e ↦ rw (e, admit) (λ h. cc)
        | inr e ↦
            rw (e, admit)
              (λ h.
                remember-Absent key (now + o.max_age_seconds) o.max_replay_entries _
                  (remove-Absent key now cache e))
      ]

  module _ (on : is_configured js o ≡ true) where
    verify_all-IsHeld :
        (key : Text) (t k : ℕ) (calls : List (Request × ℕ)) (cache : Cache)
        → All (λ (c : Request × ℕ). c.1 < t) calls
        → k + length calls + 1 ≤ o.max_replay_entries
        → IsHeld key t k cache
        → IsHeld key t (k + length calls) (verify_all calls cache)
    unfolding verify_all
    verify_all-IsHeld key t k [] cache early room held =
        subst (λ (n : ℕ). IsHeld key t n cache) (omega arith) held
    verify_all-IsHeld key t k ((req, now) ∷ calls) cache (live, early) room held =
        let next : IsHeld key t (k + 1) (verify_request js o req now cache).1 =
          outcome js o req now cache (λ r. IsHeld key t (k + 1) r.1) on
            (λ status code. IsHeld-wider key t k cache held)
            (λ genuine. admit-IsHeld key _ t k now cache live (omega (arith, room)) held) in
        subst (λ (n : ℕ). IsHeld key t n (verify_all calls (verify_request js o req now cache).1))
          (omega arith)
          (verify_all-IsHeld key t (k + 1) calls (verify_request js o req now cache).1 early
            (omega (arith, room)) next)

    same_id :
        (req : Request) (now : ℕ) (id : Text)
        → truthy req.request_id ≡ some id
        → (genuine : IsGenuine js o req now) → genuine.id ≡ id
    same_id req now id e genuine = some-injective _ _ (sym genuine.request_id ∙ e)

    verify-first :
        (req : Request) (now : ℕ) (id : Text) (cache : Cache)
        → truthy req.request_id ≡ some id
        → is_accepted (verify_request js o req now cache).0 ≡ true
        → IsHeld
            (replay_key o.key_id id)
            (now + o.max_age_seconds)
            0
            (verify_request js o req now cache).1
    verify-first req now id cache e =
        outcome js o req now cache
          (λ r.
            is_accepted r.0 ≡ true
            → IsHeld (replay_key o.key_id id) (now + o.max_age_seconds) 0 r.1)
          on (λ status code h. cc)
          (λ genuine.
            rw (same_id req now id e genuine) (admit-first (replay_key o.key_id id) now cache))

    verify-refused :
        (req : Request) (t k now : ℕ) (id : Text) (cache : Cache)
        → truthy req.request_id ≡ some id
        → now < t
        → IsHeld (replay_key o.key_id id) t k cache
        → is_accepted (verify_request js o req now cache).0 ≡ false
    verify-refused req t k now id cache e live held =
        outcome js o req now cache (λ r. is_accepted r.0 ≡ false) on (λ status code. refl)
          (λ genuine.
            rw (same_id req now id e genuine)
              (admit-refused (replay_key o.key_id id) t k now cache live held))

  -- A request ID that a configured verifier has let in is not let in again before the age that is
  -- allowed has passed, whatever other requests come in between, if these are fewer than the entries
  -- that the cache may hold and come before that time as well.
  pub replay-refused :
      (first again : Request) (now later : ℕ) (id : Text) (cache : Cache)
      (calls : List (Request × ℕ))
      → is_configured js o ≡ true
      → truthy first.request_id ≡ some id
      → truthy again.request_id ≡ some id
      → is_accepted (verify_request js o first now cache).0 ≡ true
      → All (λ (c : Request × ℕ). c.1 < now + o.max_age_seconds) calls
      → length calls + 1 ≤ o.max_replay_entries
      → later < now + o.max_age_seconds
      → is_accepted
          (verify_request js o again later
            (verify_all calls (verify_request js o first now cache).1)).0
        ≡ false
  replay-refused first again now later id cache calls on e f let_in early room live =
      verify-refused on again (now + o.max_age_seconds) (0 + length calls) later id _ f live (
        verify_all-IsHeld on (replay_key o.key_id id) (now + o.max_age_seconds) 0 calls _ early
          (omega (arith, room)) (verify-first on first now id cache e let_in))
