-- ===== src/Common/Effects.antt =====
-- The numbers of the effects that made a request, where effects are counted.
use Prim.Native.Nat.{ℕ, ◌+◌, ◌≤◌}
use mathlib.Core.Path.{◌≡◌, refl}
use mathlib.Core.Bool.{Bool, false}
use mathlib.Core.List.{List, [], ◌∷◌}
use native.Mathlib.Omega.{arith}
use startup.Common.Tests.{◌==◌}
use startup.Common.Lists.{any, All}

abbrev pub has_request : ℕ → List ℕ → Bool
has_request n requests = any (λ m. m == n) requests

abbrev pub AreUpTo : ℕ → List ℕ → Type 0
AreUpTo n requests = All (λ m. m ≤ n) requests

pub AreUpTo-below : (n : ℕ) (requests : List ℕ) → AreUpTo n requests → AreUpTo (n + 1) requests
AreUpTo-below n [] h = tt
AreUpTo-below n (m ∷ ms) (le, h) = (omega arith, AreUpTo-below n ms h)

-- A number that is above all of them is none of them.
pub has_request-above :
    (n : ℕ) (requests : List ℕ) → AreUpTo n requests → has_request (n + 1) requests ≡ false
has_request-above n [] h = refl
has_request-above n (m ∷ ms) (le, h) = ground (arith, has_request-above n ms h)
