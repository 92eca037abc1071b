-- ===== src/Gateway/CacheLaws.antt =====
-- How long the cache remembers a request.
use startup.Common.{
  ℕ, zero, suc, ◌+◌, ◌-◌, ◌≤◌, ◌<◌, ◌≡◌, refl, ap, ◌∙◌, Bool, true, false, not, List, [], ◌∷◌, ◌++◌,
  length, keep, drop, any, ltb, leb, All, arith, Bool-cases, inl, inr, Text, text_eq, text_eq_refl,
  keep-All, length-append,
}
use startup.Gateway.Verifier.{
  Cache, remove_expired_replay_entries, expires_at, evict_replay_entries, remember,
}

-- No entry has the key.
abbrev pub Absent : Text → Cache → Type 0
Absent key cache = any (λ entry. text_eq entry.0 key) cache ≡ false

-- The key has an entry that ends at a time, with some entries behind it at most.
pub record IsHeld (key : Text) (t k : ℕ) (cache : Cache) : Type 0 where
  pub front : Cache
  pub back : Cache
  pub parts : cache ≡ front ++ (key, t) ∷ back
  pub first : Absent key front
  pub few : length back ≤ k

expires_at-append :
    (key : Text) (t : ℕ) (front back : Cache)
    → Absent key front
    → expires_at key (front ++ (key, t) ∷ back) ≡ t
unfolding expires_at
expires_at-append key t [] back h = rw (text_eq_refl key) refl
expires_at-append key t ((k, s) ∷ front) back h = elim (Bool-cases (text_eq k key)) [
  | inl e ↦ cc (rw e at h)
  | inr e ↦ rw (e, expires_at) (expires_at-append key t front back (rw e at h))
]

pub expires_at-IsHeld :
    (key : Text) (t k : ℕ) (cache : Cache) → IsHeld key t k cache → expires_at key cache ≡ t
expires_at-IsHeld key t k cache held =
    rw held.parts (expires_at-append key t held.front held.back held.first)

module _ {A : Type 0} where
  keep-append : (p : A → Bool) (xs ys : List A) → keep p (xs ++ ys) ≡ keep p xs ++ keep p ys
  keep-append p [] ys = refl
  keep-append p (x ∷ xs) ys = elim (Bool-cases (p x)) [
    | inl e ↦ rw e (ap (λ r. x ∷ r) (keep-append p xs ys))
    | inr e ↦ rw e (keep-append p xs ys)
  ]

  length-keep : (p : A → Bool) (xs : List A) → length (keep p xs) ≤ length xs
  length-keep p [] = omega arith
  length-keep p (x ∷ xs) = elim (Bool-cases (p x)) [
    | inl e ↦ rw e (omega (arith, length-keep p xs))
    | inr e ↦ rw e (omega (arith, length-keep p xs))
  ]

  any-keep : (p q : A → Bool) (xs : List A) → any q xs ≡ false → any q (keep p xs) ≡ false
  any-keep p q [] h = refl
  any-keep p q (x ∷ xs) h = elim (Bool-cases (q x)) [
    | inl e ↦ cc (rw e at h)
    | inr e ↦ elim (Bool-cases (p x)) [
      | inl f ↦ rw f (rw e (any-keep p q xs (rw e at h)))
      | inr f ↦ rw f (any-keep p q xs (rw e at h))
    ]
  ]

  any-drop : (q : A → Bool) (n : ℕ) (xs : List A) → any q xs ≡ false → any q (drop n xs) ≡ false
  any-drop q zero xs h = h
  any-drop q (suc n) [] h = refl
  any-drop q (suc n) (x ∷ xs) h = any-drop q n xs (ground arith)

  drop-append : (n : ℕ) (xs ys : List A) → n ≤ length xs → drop n (xs ++ ys) ≡ drop n xs ++ ys
  drop-append zero xs ys h = refl
  drop-append (suc n) [] ys h = absurd (omega (arith, h))
  drop-append (suc n) (x ∷ xs) ys h = drop-append n xs ys (omega (arith, h))

  append_assoc : (xs ys zs : List A) → (xs ++ ys) ++ zs ≡ xs ++ (ys ++ zs)
  append_assoc [] ys zs = refl
  append_assoc (x ∷ xs) ys zs = ap (λ r. x ∷ r) (append_assoc xs ys zs)

-- An entry that has not ended is not removed.
pub remove-IsHeld :
    (key : Text) (t k now : ℕ) (cache : Cache)
    → now < t
    → IsHeld key t k cache
    → IsHeld key t k (remove_expired_replay_entries cache now)
unfolding remove_expired_replay_entries
remove-IsHeld key t k now cache live held =
    let p : Text × ℕ → Bool = λ entry. not (leb entry.1 now) in
    let kept : not (leb t now) ≡ true = ground arith in
    record {
      front = keep p held.front;
      back = keep p held.back;
      parts =
          ap (λ c. keep p c) held.parts
          ∙ keep-append p held.front ((key, t) ∷ held.back)
          ∙ rw kept refl;
      first = any-keep p (λ entry. text_eq entry.0 key) held.front held.first;
      few = omega (arith, length-keep p held.back, held.few);
    }

-- Where there is room for the entries behind it, it is not evicted.
pub remember-IsHeld :
    (key other : Text) (t s k max_entries : ℕ) (cache : Cache)
    → k + 2 ≤ max_entries
    → IsHeld key t k cache
    → IsHeld key t (k + 1) (remember other s (evict_replay_entries cache max_entries))
unfolding remember evict_replay_entries
remember-IsHeld key other t s k max_entries cache room held =
    let n : ℕ = length cache + 1 - max_entries in
    let size : length cache ≡ length held.front + length ((key, t) ∷ held.back) =
      ap (λ (c : Cache). length c) held.parts ∙ length-append held.front ((key, t) ∷ held.back) in
    let few = held.few in
    let enough : n ≤ length held.front = omega arith in
    record {
      front = drop n held.front;
      back = held.back ++ (other, s) ∷ [];
      parts =
          ap (λ c. drop n c ++ (other, s) ∷ []) held.parts
          ∙ ap (λ c. c ++ (other, s) ∷ []) (drop-append n held.front ((key, t) ∷ held.back) enough)
          ∙ append_assoc (drop n held.front) ((key, t) ∷ held.back) ((other, s) ∷ []);
      first = any-drop (λ entry. text_eq entry.0 key) n held.front held.first;
      few = omega (arith, length-append held.back ((other, s) ∷ []));
    }

-- A key that is not there is held when it is remembered.
pub remember-Absent :
    (key : Text) (t max_entries : ℕ) (cache : Cache)
    → Absent key cache
    → IsHeld key t 0 (remember key t (evict_replay_entries cache max_entries))
unfolding remember evict_replay_entries
remember-Absent key t max_entries cache absent = record {
  front = drop (length cache + 1 - max_entries) cache;
  back = [];
  parts = refl;
  first = any-drop (λ entry. text_eq entry.0 key) (length cache + 1 - max_entries) cache absent;
  few = omega arith;
}

-- The entries that are left have not ended.
live_entries :
    (now : ℕ) (cache : Cache)
    → All (λ (e : Text × ℕ). now < e.1) (remove_expired_replay_entries cache now)
unfolding remove_expired_replay_entries
live_entries now cache =
    keep-All (λ (e : Text × ℕ). now < e.1) (λ (e : Text × ℕ). not (leb e.1 now))
      (λ e h. ground arith) cache

Absent-of_live :
    (key : Text) (now : ℕ) (cache : Cache)
    → All (λ (e : Text × ℕ). now < e.1) cache
    → ltb now (expires_at key cache) ≡ false
    → Absent key cache
unfolding expires_at
Absent-of_live key now [] h e = refl
Absent-of_live key now ((k, s) ∷ rest) (live, h) e = elim (Bool-cases (text_eq k key)) [
  | inl f ↦ absurd (ground (arith, rw (f, expires_at) at e))
  | inr f ↦ rw f (Absent-of_live key now rest h (rw (f, expires_at) at e))
]

-- A key that is not refused has no entry that is left.
pub remove-Absent :
    (key : Text) (now : ℕ) (cache : Cache)
    → ltb now (expires_at key (remove_expired_replay_entries cache now)) ≡ false
    → Absent key (remove_expired_replay_entries cache now)
remove-Absent key now cache h =
    Absent-of_live key now (remove_expired_replay_entries cache now) (live_entries now cache) h

pub IsHeld-wider :
    (key : Text) (t k : ℕ) (cache : Cache) → IsHeld key t k cache → IsHeld key t (k + 1) cache
IsHeld-wider key t k cache held = record {
  front = held.front;
  back = held.back;
  parts = held.parts;
  first = held.first;
  few = let f = held.few in omega arith;
}
