-- ===== src/Testnet/Strings.antt =====
-- strings.Split at a comma, and strconv.Itoa, as testnet_multi_node.go uses them.
use chain_rice.Common.{
  ℕ, zero, suc, ◌+◌, ◌-◌, ◌/◌, ◌%◌, GoString, List, [], ◌∷◌, ◌++◌, leb, ltb, ◌==◌, if◌then◌else◌,
}

-- An int, in the range that the port numbers have.
pub data ℤ : Type 0 where
  pos : ℕ → ℤ
  negsuc : ℕ → ℤ

-- `a - b` on int
abbrev pub sub_int : ℕ → ℕ → ℤ
sub_int a b = if leb b a then pos (a - b) else negsuc (b - a - 1)

unfoldable pub decimal : ℕ → ℕ → GoString
decimal zero n = []
decimal (suc fuel) n =
    let high = decimal fuel (n / 10) in
    if ltb n 10 then (48 + n) ∷ [] else high ++ ((48 + n % 10) ∷ [])

-- A number has no more digits than its value and one.
unfoldable pub itoa : ℤ → GoString
itoa (pos n) = decimal (suc n) n
itoa (negsuc n) = 45 ∷ decimal (suc (suc n)) (suc n)

abbrev pub comma : ℕ
comma = 44

-- Put a byte before the first part.
abbrev pub extend : ℕ → List GoString → List GoString
extend c [] = (c ∷ []) ∷ []
extend c (part ∷ parts) = (c ∷ part) ∷ parts

unfoldable pub split : GoString → List GoString
split [] = [] ∷ []
split (c ∷ s) = let rest = split s in if c == comma then [] ∷ rest else extend c rest
