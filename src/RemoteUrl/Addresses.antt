-- ===== src/RemoteUrl/Addresses.antt =====
-- `isPublicIpAddress`. It asks only texts that `net.isIP` takes for an address, whose octets are
-- natural numbers.
use startup.Common.{
  ℕ, Bool, true, false, not, ◌&&◌, ◌||◌, List, [], ◌∷◌, map, any, leb, ltb, ◌==◌, if◌then◌else◌,
  Text, codes, text_eq, split, starts_with, drop,
}
use startup.RemoteUrl.{Platform, Family, no_ip, ipv4, ipv6}

-- The conditions on the first three octets under which an address is refused.
unfoldable pub is_reserved_octets : ℕ → ℕ → ℕ → Bool
is_reserved_octets a b c =
    (a == 0 || (a == 10 || (a == 127 || leb 224 a)))
    || (a == 100 && (leb 64 b && leb b 127)
        || (a == 169 && b == 254
            || (a == 172 && (leb 16 b && leb b 31)
                || (a == 192 && b == 168
                    || (a == 192 && (b == 0 && c == 0)
                        || (a == 192 && (b == 0 && c == 2)
                            || (a == 198 && (b == 18 || b == 19)
                                || (a == 198 && (b == 51 && c == 100)
                                    || a == 203 && (b == 0 && c == 113)))))))))

unfoldable pub is_public_octets : List ℕ → Bool
is_public_octets (a ∷ b ∷ c ∷ d ∷ []) =
    not (any (λ v. ltb 255 v) (a ∷ b ∷ c ∷ d ∷ [])) && not (is_reserved_octets a b c)
is_public_octets _ = false

abbrev any_prefix : List Text → Text → Bool
any_prefix prefixes s = any (λ p. starts_with p s) prefixes

abbrev hidden_prefixes : List Text
hidden_prefixes =
    codes "fc"
    ∷ codes "fd"
    ∷ codes "fe8"
    ∷ codes "fe9"
    ∷ codes "fea"
    ∷ codes "feb"
    ∷ codes "ff"
    ∷ codes "2001:db8:"
    ∷ []

module _ (js : Platform) where
  unfoldable pub is_public_ipv4 : Text → Bool
  is_public_ipv4 address = is_public_octets (map js.octet (split b'.' address))

  abbrev is_ipv4 : Family → Bool
  is_ipv4 ipv4 = true
  is_ipv4 _ = false

  unfoldable pub is_public_ipv6 : Text → Bool
  is_public_ipv6 address =
      let normalized = js.to_lower address in
      if text_eq normalized (codes "::")
        || (text_eq normalized (codes "::1") || any_prefix hidden_prefixes normalized)
      then false
      else if starts_with (codes "::ffff:") normalized
      then is_ipv4 (js.is_ip (drop 7 normalized)) && is_public_ipv4 (drop 7 normalized)
      else starts_with (codes "2") normalized || starts_with (codes "3") normalized

  unfoldable pub is_public_ip_address : Text → Bool
  is_public_ip_address address = elim (js.is_ip address) [
    | ipv4 ↦ is_public_ipv4 address
    | ipv6 ↦ is_public_ipv6 address
    | no_ip ↦ false
  ]
