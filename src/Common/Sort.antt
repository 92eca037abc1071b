-- ===== src/Common/Sort.antt =====
-- `Array.prototype.sort`, which is stable, as insertion sort by a Boolean "goes before".
use mathlib.Core.Path.{◌≡◌, refl}
use mathlib.Core.Logic.{inl, inr}
use mathlib.Core.Bool.{Bool, true, false}
use mathlib.Core.List.{List, [], ◌∷◌, map, Perm}
use Prim.Native.Nat.{ℕ, zero, suc, ◌+◌}
use native.Mathlib.Omega.{arith}
use mathlib.Core.List.Perm
use startup.Common.Tests.{if◌then◌else◌, Bool-cases}
use startup.Common.Lists.{All, All-take, All-map, All-to_map, All-tabulate, take}

-- Each element is related to all behind it.
abbrev pub Ordered {ℓ κ} : {A : Type ℓ} → (A → A → Type κ) → List A → Type κ
Ordered R [] = Unit
Ordered R (x ∷ xs) = All (R x) xs × Ordered R xs

-- `before y x` says that a later `y` moves in front of an earlier `x`.
module _ {ℓ} {A : Type ℓ} (before : A → A → Bool) where
  pub insert_sorted : A → List A → List A
  insert_sorted a [] = a ∷ []
  insert_sorted a (x ∷ xs) =
      let later = x ∷ insert_sorted a xs in if before x a then later else a ∷ x ∷ xs

  unfoldable pub sort : List A → List A
  unfolding insert_sorted
  sort [] = []
  sort (x ∷ xs) = insert_sorted x (sort xs)

  insert_sorted-perm : (a : A) (xs : List A) → Perm (insert_sorted a xs) (a ∷ xs)
  unfolding insert_sorted
  insert_sorted-perm a [] = Perm.refl _
  insert_sorted-perm a (x ∷ xs) = elim (Bool-cases (before x a)) [
    | inl e ↦ rw e (Perm.trans (Perm.cons x (insert_sorted-perm a xs)) (Perm.swap a x xs))
    | inr e ↦ rw e (Perm.refl _)
  ]

  pub sort-perm : (xs : List A) → Perm (sort xs) xs
  unfolding sort
  sort-perm [] = Perm.refl _
  sort-perm (x ∷ xs) = Perm.trans (insert_sorted-perm x (sort xs)) (Perm.cons x (sort-perm xs))

module _ {ℓ κ} {A : Type ℓ} (before : A → A → Bool) (P : A → Type κ) where
  insert_sorted-All : (a : A) (xs : List A) → P a → All P xs → All P (insert_sorted before a xs)
  unfolding insert_sorted
  insert_sorted-All a [] p h = (p, tt)
  insert_sorted-All a (x ∷ xs) p (q, h) = elim (Bool-cases (before x a)) [
    | inl e ↦ rw e (q, insert_sorted-All a xs p h)
    | inr e ↦ rw e (p, (q, h))
  ]

  pub sort-All : (xs : List A) → All P xs → All P (sort before xs)
  unfolding sort
  sort-All [] h = tt
  sort-All (x ∷ xs) (p, h) = insert_sorted-All x (sort before xs) p (sort-All xs h)

  insert_sorted-All_of : (a : A) (xs : List A) → All P (insert_sorted before a xs) → P a × All P xs
  unfolding insert_sorted
  insert_sorted-All_of a [] h = h
  insert_sorted-All_of a (x ∷ xs) h = elim (Bool-cases (before x a)) [
    | inl e ↦ let (q, r) = (rw e at h) in let (p, k) = insert_sorted-All_of a xs r in (p, (q, k))
    | inr e ↦ rw e at h
  ]

  pub sort-All_of : (xs : List A) → All P (sort before xs) → All P xs
  unfolding sort
  sort-All_of [] h = tt
  sort-All_of (x ∷ xs) h =
      let (p, k) = insert_sorted-All_of x (sort before xs) h in (p, sort-All_of xs k)

module _ {ℓ κ} {A : Type ℓ} (before : A → A → Bool) (R : A → A → Type κ)
    (moved : (x a : A) → before x a ≡ true → R x a)
    (stayed : (x a : A) → before x a ≡ false → R a x)
    (trans : (x y z : A) → R x y → R y z → R x z) where
  All-below : (a x : A) (xs : List A) → R a x → All (R x) xs → All (R a) xs
  All-below a x [] r h = tt
  All-below a x (y ∷ xs) r (q, h) = (trans a x y r q, All-below a x xs r h)

  insert_sorted-Ordered :
      (a : A) (xs : List A) → Ordered R xs → Ordered R (insert_sorted before a xs)
  unfolding insert_sorted
  insert_sorted-Ordered a [] h = (tt, tt)
  insert_sorted-Ordered a (x ∷ xs) (q, h) = elim (Bool-cases (before x a)) [
    | inl e ↦
        rw e (insert_sorted-All before (R x) a xs (moved x a e) q, insert_sorted-Ordered a xs h)
    | inr e ↦ rw e (let r = stayed x a e in ((r, All-below a x xs r q), (q, h)))
  ]

  -- The result is in order.
  pub sort-Ordered : (xs : List A) → Ordered R (sort before xs)
  unfolding sort
  sort-Ordered [] = tt
  sort-Ordered (x ∷ xs) = insert_sorted-Ordered x (sort before xs) (sort-Ordered xs)

module _ {ℓ κ} {A : Type ℓ} (R : A → A → Type κ) where
  pub Ordered-take : (n : ℕ) (xs : List A) → Ordered R xs → Ordered R (take n xs)
  Ordered-take zero xs h = tt
  Ordered-take (suc n) [] h = tt
  Ordered-take (suc n) (x ∷ xs) (below, h) = (All-take (R x) n xs below, Ordered-take n xs h)

module _ {ℓ κ ι ρ} {A : Type ℓ} {B : Type κ} (f : A → B) (R : A → A → Type ι) (S : B → B → Type ρ)
    (keeps : (x y : A) → R x y → S (f x) (f y)) where
  pub Ordered-map : (xs : List A) → Ordered R xs → Ordered S (map f xs)
  Ordered-map [] h = tt
  Ordered-map (x ∷ xs) (below, h) = (
    All-to_map f (S (f x)) xs (All-map (R x) (λ y. S (f x) (f y)) (keeps x) xs below),
    Ordered-map xs h,
  )

pub Ordered-trivial {ℓ} : {A : Type ℓ} (xs : List A) → Ordered (λ x y. Unit {0}) xs
Ordered-trivial [] = tt
Ordered-trivial (x ∷ xs) = (All-tabulate (λ y. Unit {0}) (λ y. tt) xs, Ordered-trivial xs)

-- The sum of a measure over a list.
abbrev pub total {ℓ} : {A : Type ℓ} → (A → ℕ) → List A → ℕ
total f [] = 0
total f (x ∷ xs) = f x + total f xs

module _ {ℓ} {A : Type ℓ} (before : A → A → Bool) (f : A → ℕ) where
  total-insert_sorted :
      (a : A) (xs : List A) → total f (insert_sorted before a xs) ≡ f a + total f xs
  unfolding insert_sorted
  total-insert_sorted a [] = refl
  total-insert_sorted a (x ∷ xs) = elim (Bool-cases (before x a)) [
    | inl e ↦ rw e (omega (arith, total-insert_sorted a xs))
    | inr e ↦ rw e refl
  ]

  pub total-sort : (xs : List A) → total f (sort before xs) ≡ total f xs
  unfolding sort
  total-sort [] = refl
  total-sort (x ∷ xs) = omega (arith, total-insert_sorted x (sort before xs), total-sort xs)
