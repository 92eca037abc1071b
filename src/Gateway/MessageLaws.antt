-- ===== src/Gateway/MessageLaws.antt =====
-- What a signature is a signature of.
use startup.Common.{
  ◌≡◌, refl, ap, ◌∙◌, sym, false, some, List, [], ◌∷◌, ◌++◌, length, any, arith, Bool-cases, inl,
  inr, Text, codes, join, starts_with,
}
use mathlib.Core.Option.{some-injective}
use mathlib.Core.List.{head-eq_of_cons-eq, tail-eq_of_cons-eq}
use startup.Gateway.{Platform}
use startup.Gateway.Message.{Fields, is_key_id, has_control, values, build_canonical_message}

-- No text of a list has a control character.
abbrev IsClean : List Text → Type 0
IsClean xs = any has_control xs ≡ false

-- A text without a line break ends at the first one.
split_line :
    (a b x y : Text)
    → has_control a ≡ false
    → has_control b ≡ false
    → a ++ 10 ∷ x ≡ b ++ 10 ∷ y
    → (a ≡ b) × (x ≡ y)
unfolding has_control
split_line [] [] x y ca cb e = (refl, tail-eq_of_cons-eq e)
split_line [] (d ∷ b) x y ca cb e = absurd (ground (arith, head-eq_of_cons-eq e))
split_line (c ∷ a) [] x y ca cb e = absurd (ground (arith, head-eq_of_cons-eq e))
split_line (c ∷ a) (d ∷ b) x y ca cb e =
    let (same, rest) = split_line a b x y (ground arith) (ground arith) (tail-eq_of_cons-eq e) in
    (rw (head-eq_of_cons-eq e) (rw same refl), rest)

join-injective :
    (xs ys : List Text)
    → length xs ≡ length ys
    → IsClean xs
    → IsClean ys
    → join (10 ∷ []) xs ≡ join (10 ∷ []) ys
    → xs ≡ ys
unfolding join
join-injective [] [] l cx cy e = refl
join-injective [] (y ∷ ys) l cx cy e = absurd (omega (arith, l))
join-injective (x ∷ xs) [] l cx cy e = absurd (omega (arith, l))
join-injective (x ∷ []) (y ∷ []) l cx cy e = ap (λ z. z ∷ []) e
join-injective (x ∷ []) (y ∷ y' ∷ ys) l cx cy e = absurd (omega (arith, l))
join-injective (x ∷ x' ∷ xs) (y ∷ []) l cx cy e = absurd (omega (arith, l))
join-injective (x ∷ x' ∷ xs) (y ∷ y' ∷ ys) l cx cy e =
    let (same, rest) = split_line x y _ _ (ground arith) (ground arith) e in
    let below =
      join-injective (x' ∷ xs) (y' ∷ ys) (omega (arith, l)) (ground arith) (ground arith) rest in
    rw same (ap (λ z. y ∷ z) below)

message-values :
    (js : Platform) (f : Fields) (m : Text)
    → build_canonical_message js f ≡ some m
    → IsClean (values js f) × (join (10 ∷ []) (values js f) ≡ m)
unfolding build_canonical_message
message-values js f m h = elim (Bool-cases (is_key_id f.key_id)) [
  | inr e ↦ cc (rw (e, build_canonical_message) at h)
  | inl e ↦ elim (Bool-cases (starts_with (codes "/") f.request_target)) [
    | inr g ↦ cc (rw (g, build_canonical_message) at (rw (e, build_canonical_message) at h))
    | inl g ↦ elim (Bool-cases (any has_control (values js f))) [
      | inl k ↦ cc (
          rw (k, build_canonical_message) at
            (rw (g, build_canonical_message) at (rw (e, build_canonical_message) at h)))
      | inr k ↦ (
        k,
        some-injective _ _ (
            rw (k, build_canonical_message) at
              (rw (g, build_canonical_message) at (rw (e, build_canonical_message) at h))),
      )
    ]
  ]
]

-- A signature speaks for one request only: two requests with the same canonical message have the same
-- key, decimal timestamp, request ID and slug of the tool, the same method in upper case, and the same
-- target.
pub build_canonical_message_injective :
    (js : Platform) (f g : Fields) (m : Text)
    → build_canonical_message js f ≡ some m
    → build_canonical_message js g ≡ some m
    → (f.key_id ≡ g.key_id)
      × (js.integer_text f.timestamp ≡ js.integer_text g.timestamp)
      × (f.request_id ≡ g.request_id)
      × (f.tool_slug ≡ g.tool_slug)
      × (js.to_upper f.method ≡ js.to_upper g.method)
      × (f.request_target ≡ g.request_target)
build_canonical_message_injective js f g m h k =
    let (cf, ef) = message-values js f m h in
    let (cg, eg) = message-values js g m k in
    let all = join-injective (values js f) (values js g) refl cf cg (ef ∙ sym eg) in
    let e1 = tail-eq_of_cons-eq all in
    let e2 = tail-eq_of_cons-eq e1 in
    let e3 = tail-eq_of_cons-eq e2 in
    let e4 = tail-eq_of_cons-eq e3 in
    let e5 = tail-eq_of_cons-eq e4 in
    let e6 = tail-eq_of_cons-eq e5 in
    (
      head-eq_of_cons-eq e1,
      head-eq_of_cons-eq e2,
      head-eq_of_cons-eq e3,
      head-eq_of_cons-eq e4,
      head-eq_of_cons-eq e5,
      head-eq_of_cons-eq e6,
    )
