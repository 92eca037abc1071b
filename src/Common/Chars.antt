-- ===== src/Common/Chars.antt =====
-- Texts of the program as lists of UTF-16 code units, which is what a JavaScript string is, and
-- the methods of `String` that the program calls.
use Prim.Native.Char.{code}
use Prim.Native.Nat.{ℕ, ◌+◌}
use Prim.Native.String.{String}
use mathlib.Core.Bool.{Bool, true, false, ◌&&◌, ◌||◌}
use mathlib.Core.Option.{Option, none, some}
use mathlib.Core.List.{List, [], ◌∷◌, ◌++◌}
use startup.Common.Tests.{leb, ◌==◌, if◌then◌else◌}

abbrev pub Text : Type 0
Text = List ℕ

-- A literal of the source. Its characters are all in the basic plane, so each is one unit.
unfoldable pub codes : String → Text
codes String.[] = []
codes (String.◌∷◌ c s) = code c ∷ codes s

unfoldable pub text_eq : Text → Text → Bool
text_eq [] [] = true
text_eq [] (d ∷ t) = false
text_eq (c ∷ s) [] = false
text_eq (c ∷ s) (d ∷ t) = c == d && text_eq s t

abbrev pub is_blank : Text → Bool
is_blank [] = true
is_blank (c ∷ s) = false

-- `text.startsWith(prefix)`, the prefix first.
unfoldable pub starts_with : Text → Text → Bool
starts_with [] s = true
starts_with (p ∷ ps) [] = false
starts_with (p ∷ ps) (c ∷ s) = p == c && starts_with ps s

-- `text.includes(part)`, the part first.
unfoldable pub includes : Text → Text → Bool
unfolding starts_with
includes part [] = is_blank part
includes part (c ∷ s) = starts_with part (c ∷ s) || includes part s

-- White space and line ends of ECMAScript, which `trim` and `\s` go by.
unfoldable pub is_space : ℕ → Bool
is_space c =
    leb 9 c && leb c 13
    || c == 32
    || c == 0xa0
    || c == 0x1680
    || leb 0x2000 c && leb c 0x200a
    || c == 0x2028
    || c == 0x2029
    || c == 0x202f
    || c == 0x205f
    || c == 0x3000
    || c == 0xfeff

unfoldable pub trim_start : Text → Text
unfolding is_space
trim_start [] = []
trim_start (c ∷ s) = let rest = trim_start s in if is_space c then rest else c ∷ s

unfoldable pub trim_end : Text → Text
unfolding is_space
trim_end [] = []
trim_end (c ∷ s) = let rest = trim_end s in if is_space c && is_blank rest then [] else c ∷ rest

unfoldable pub trim : Text → Text
unfolding trim_start trim_end
trim s = trim_end (trim_start s)

unfoldable pub join : Text → List Text → Text
join sep [] = []
join sep (s ∷ []) = s
join sep (s ∷ t ∷ r) = s ++ (sep ++ join sep (t ∷ r))

-- `text.split(sep)` at one unit, the piece so far in `cur`.
unfoldable pub split_from : ℕ → Text → Text → List Text
split_from sep cur [] = cur ∷ []
split_from sep cur (c ∷ s) =
    let closed = cur ∷ split_from sep [] s in
    let longer = split_from sep (cur ++ c ∷ []) s in if c == sep then closed else longer

unfoldable pub split : ℕ → Text → List Text
unfolding split_from
split sep s = split_from sep [] s

unfoldable pub is_digit : ℕ → Bool
is_digit c = leb b'0' c && leb c b'9'

unfoldable pub is_lower : ℕ → Bool
is_lower c = leb b'a' c && leb c b'z'

unfoldable pub is_upper : ℕ → Bool
is_upper c = leb b'A' c && leb c b'Z'

-- `/[a-z0-9]/i` of one unit. With no `u` flag the other units have no ASCII case partner.
unfoldable pub is_alnum : ℕ → Bool
unfolding is_lower is_upper is_digit
is_alnum c = is_lower c || is_upper c || is_digit c

-- `toLowerCase` on a text of ASCII characters, the instance at which tests run.
unfoldable pub ascii_lower : Text → Text
unfolding is_upper
ascii_lower [] = []
ascii_lower (c ∷ s) = (if is_upper c then c + 32 else c) ∷ ascii_lower s

-- `text.split(/\s+/)`: `in_run` says that the unit before was white space.
pub pieces : Bool → Text → Text → List Text
pieces in_run cur [] = cur ∷ []
pieces true cur (c ∷ s) =
    let skipped = pieces true cur s in
    let started = pieces false (c ∷ []) s in if is_space c then skipped else started
pieces false cur (c ∷ s) =
    let closed = cur ∷ pieces true [] s in
    let longer = pieces false (cur ++ c ∷ []) s in if is_space c then closed else longer

unfoldable pub split_spaces : Text → List Text
unfolding pieces is_space
split_spaces s = pieces false [] s

-- `text.replaceAll(from, to)` at one unit.
unfoldable pub replace_char : ℕ → ℕ → Text → Text
replace_char from to [] = []
replace_char from to (c ∷ s) = (if c == from then to else c) ∷ replace_char from to s

-- `set.has(text)`, or `list.includes(text)`.
unfoldable pub contains : List Text → Text → Bool
unfolding text_eq
contains [] s = false
contains (t ∷ ts) s = text_eq t s || contains ts s

-- `text.endsWith(suffix)`, the suffix first.
unfoldable pub ends_with : Text → Text → Bool
unfolding text_eq
ends_with suffix [] = is_blank suffix
ends_with suffix (c ∷ s) = text_eq suffix (c ∷ s) || ends_with suffix s

-- `text.replaceAll(c, "")` at one unit.
unfoldable pub remove_char : ℕ → Text → Text
remove_char from [] = []
remove_char from (c ∷ s) = let rest = remove_char from s in if c == from then rest else c ∷ rest

-- A text that is missing, null or empty counts as false.
unfoldable pub truthy : Option Text → Option Text
truthy none = none
truthy (some s) = if is_blank s then none else some s
