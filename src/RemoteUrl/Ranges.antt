-- ===== src/RemoteUrl/Ranges.antt =====
-- The reserved IPv4 addresses, as ranges of 32-bit numbers.
use startup.Common.{
  ℕ, ◌+◌, ◌*◌, ◌≤◌, ◌≡◌, Bool, not, ◌&&◌, ◌||◌, List, [], ◌∷◌, any, leb, ◌==◌, arith,
}
use startup.RemoteUrl.Addresses.{is_reserved_octets, is_public_octets}

-- The number of an address.
abbrev pub number_of : ℕ → ℕ → ℕ → ℕ → ℕ
number_of a b c d = a * 16777216 + b * 65536 + c * 256 + d

abbrev pub is_within : ℕ → ℕ × ℕ → Bool
is_within n range = leb range.0 n && leb n range.1

-- 0.0.0.0/8, 10.0.0.0/8, 127.0.0.0/8, 224.0.0.0/3, 100.64.0.0/10, 169.254.0.0/16, 172.16.0.0/12,
-- 192.168.0.0/16, 192.0.0.0/24, 192.0.2.0/24, 198.18.0.0/15, 198.51.100.0/24 and 203.0.113.0/24.
abbrev pub reserved_ranges : List (ℕ × ℕ)
reserved_ranges =
    (0x00000000, 0x00FFFFFF)
    ∷ (0x0A000000, 0x0AFFFFFF)
    ∷ (0x7F000000, 0x7FFFFFFF)
    ∷ (0xE0000000, 0xFFFFFFFF)
    ∷ (0x64400000, 0x647FFFFF)
    ∷ (0xA9FE0000, 0xA9FEFFFF)
    ∷ (0xAC100000, 0xAC1FFFFF)
    ∷ (0xC0A80000, 0xC0A8FFFF)
    ∷ (0xC0000000, 0xC00000FF)
    ∷ (0xC0000200, 0xC00002FF)
    ∷ (0xC6120000, 0xC613FFFF)
    ∷ (0xC6336400, 0xC63364FF)
    ∷ (0xCB007100, 0xCB0071FF)
    ∷ []

module _ (a b c d : ℕ) (small_a : a ≤ 255) (small_b : b ≤ 255) (small_c : c ≤ 255)
    (small_d : d ≤ 255) where
  -- Each range is one of the conditions on the octets.
  within_0 : (a == 0) ≡ is_within (number_of a b c d) (0x00000000, 0x00FFFFFF)
  within_0 = ground arith

  within_1 : (a == 10) ≡ is_within (number_of a b c d) (0x0A000000, 0x0AFFFFFF)
  within_1 = ground arith

  within_2 : (a == 127) ≡ is_within (number_of a b c d) (0x7F000000, 0x7FFFFFFF)
  within_2 = ground arith

  within_3 : (leb 224 a) ≡ is_within (number_of a b c d) (0xE0000000, 0xFFFFFFFF)
  within_3 = ground arith

  within_4 :
      (a == 100 && (leb 64 b && leb b 127)) ≡ is_within (number_of a b c d) (0x64400000, 0x647FFFFF)
  within_4 = ground arith

  within_5 : (a == 169 && b == 254) ≡ is_within (number_of a b c d) (0xA9FE0000, 0xA9FEFFFF)
  within_5 = ground arith

  within_6 :
      (a == 172 && (leb 16 b && leb b 31)) ≡ is_within (number_of a b c d) (0xAC100000, 0xAC1FFFFF)
  within_6 = ground arith

  within_7 : (a == 192 && b == 168) ≡ is_within (number_of a b c d) (0xC0A80000, 0xC0A8FFFF)
  within_7 = ground arith

  within_8 :
      (a == 192 && (b == 0 && c == 0)) ≡ is_within (number_of a b c d) (0xC0000000, 0xC00000FF)
  within_8 = ground arith

  within_9 :
      (a == 192 && (b == 0 && c == 2)) ≡ is_within (number_of a b c d) (0xC0000200, 0xC00002FF)
  within_9 = ground arith

  within_10 :
      (a == 198 && (b == 18 || b == 19)) ≡ is_within (number_of a b c d) (0xC6120000, 0xC613FFFF)
  within_10 = ground arith

  within_11 :
      (a == 198 && (b == 51 && c == 100)) ≡ is_within (number_of a b c d) (0xC6336400, 0xC63364FF)
  within_11 = ground arith

  within_12 :
      (a == 203 && (b == 0 && c == 113)) ≡ is_within (number_of a b c d) (0xCB007100, 0xCB0071FF)
  within_12 = ground arith

  reserved_lem : is_reserved_octets a b c ≡ any (is_within (number_of a b c d)) reserved_ranges
  unfolding is_reserved_octets
  reserved_lem = ground (
    arith, within_0, within_1, within_2, within_3, within_4, within_5, within_6, within_7, within_8,
    within_9, within_10, within_11, within_12,
  )

-- An IPv4 address of four octets, none of them above 255, is public exactly if its 32-bit number lies
-- in none of the thirteen reserved ranges.
pub is_public_octets_lem :
    (a b c d : ℕ)
    → a ≤ 255
    → b ≤ 255
    → c ≤ 255
    → d ≤ 255
    → is_public_octets (a ∷ b ∷ c ∷ d ∷ [])
      ≡ not (any (is_within (number_of a b c d)) reserved_ranges)
unfolding is_public_octets
is_public_octets_lem a b c d ha hb hc hd = rw (reserved_lem a b c d ha hb hc hd) (ground arith)
