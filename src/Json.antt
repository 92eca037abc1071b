-- ===== src/Json.antt =====
-- JSON values, which the source types `unknown` or `Record<string, unknown>`, and the operations of
-- JavaScript that it applies to them. A number is given by the 64 bits of its double.
use startup.Common.{
  ℕ, Bool, true, false, Option, none, some, List, [], ◌∷◌, Text, codes, text_eq, join,
  if◌then◌else◌,
}

mutual
  pub data Json : Type 0 where
    null : Json
    bool : Bool → Json
    num : ℕ → Json
    str : Text → Json
    arr : Items → Json
    obj : Members → Json

  pub data Items : Type 0 where
    nil : Items
    cons : Json → Items → Items

  pub data Members : Type 0 where
    end : Members
    member : Text → Json → Members → Members

-- A property of an object by its name.
unfoldable pub lookup_member : Text → Members → Option Json
lookup_member name end = none
lookup_member name (member key value rest) =
    if text_eq key name then some value else lookup_member name rest

-- `data.name`, or `data?.name`: `none` stands for `undefined`. The names that the source reads are
-- those of no property that texts, numbers, Booleans or arrays have.
unfoldable pub get : Text → Json → Option Json
unfolding lookup_member
get name (obj members) = lookup_member name members
get name _ = none

-- `x ?? d` where `x` is a property that may be missing or null.
unfoldable pub coalesce : Option Json → Json → Json
coalesce none d = d
coalesce (some null) d = d
coalesce (some value) d = value

-- A value that is neither missing nor null.
unfoldable pub present : Option Json → Option Json
present none = none
present (some null) = none
present (some value) = some value

unfoldable pub as_text : Json → Option Text
as_text (str s) = some s
as_text _ = none

-- `String(value)`, with the decimal text of a number as a parameter.
unfoldable mutual
  unfolding codes join

  pub to_text : (ℕ → Text) → Json → Text
  to_text number null = codes "null"
  to_text number (bool true) = codes "true"
  to_text number (bool false) = codes "false"
  to_text number (num n) = number n
  to_text number (str s) = s
  to_text number (arr items) = join (codes ",") (item_texts number items)
  to_text number (obj members) = codes "[object Object]"

  pub item_texts : (ℕ → Text) → Items → List Text
  item_texts number nil = []
  item_texts number (cons null rest) = [] ∷ item_texts number rest
  item_texts number (cons item rest) = to_text number item ∷ item_texts number rest
