-- ===== src/Common/Bits.antt =====
-- Bit operations of the wire format as arithmetic: a seven-bit mask, a disjoint `|`.
use Prim.Native.Nat.{
  ℕ, zero, suc, ◌+◌, ◌*◌, ◌/◌, ◌%◌, ◌≤◌, min, max, bit_and, bit_or, digits, bit_and-bitwise,
  bit_or-bitwise,
}
use mathlib.Core.Path.{◌≡◌, refl, ap, sym, ◌∙◌}
use native.Mathlib.Nat.{pow-suc}
use Prim.Native.Nat.{◌<◌, ◌^◌}
use native.Mathlib.Omega.{arith}

-- Any operation on digits: `f` on two digits, `z` once the first number has run out.
module _ (z : ℕ → ℕ) (f : ℕ → ℕ → ℕ) where
  digits-zero : (count b : ℕ) → digits z f count 0 b ≡ z b
  digits-zero zero b = refl
  digits-zero (suc count) b = refl

  -- Counts that cover the first number give the same digits.
  digits-count : (b a c d : ℕ) → a ≤ c → a ≤ d → digits z f c a b ≡ digits z f d a b
  digits-count b zero c d _ _ = digits-zero c b ∙ sym (digits-zero d b)
  digits-count b (suc a) zero d le _ = absurd (omega arith)
  digits-count b (suc a) (suc c) zero _ le = absurd (omega arith)
  digits-count b (suc a) (suc c) (suc d) le le' =
      ap (λ (high : ℕ). high * 2 + f (suc a % 2) (b % 2))
        (digits-count (b / 2) (suc a / 2) c d (omega arith) (omega arith))

  -- The lowest digit apart from the others.
  digits-lowest :
      (b a : ℕ)
      → digits z f (suc a) (suc a) b
        ≡ digits z f (suc a / 2) (suc a / 2) (b / 2) * 2 + f (suc a % 2) (b % 2)
  digits-lowest b a =
      ap (λ (high : ℕ). high * 2 + f (suc a % 2) (b % 2))
        (digits-count (b / 2) (suc a / 2) a (suc a / 2) (omega arith) (omega arith))

bit_and_low : (b a : ℕ) → bit_and a b ≡ bit_and (a / 2) (b / 2) * 2 + min (a % 2) (b % 2)
bit_and_low b zero = omega (arith, bit_and-bitwise 0 b, bit_and-bitwise 0 (b / 2))
bit_and_low b (suc a) =
    bit_and-bitwise (suc a) b
    ∙ digits-lowest (λ _. 0) min b a
    ∙ ap (λ (high : ℕ). high * 2 + min (suc a % 2) (b % 2))
        (sym (bit_and-bitwise (suc a / 2) (b / 2)))

-- A mask of `k` ones keeps the remainder by `2 ^ k`.
bit_and_none : (bound a : ℕ) → a ≤ bound → bit_and a 0 ≡ 0
bit_and_none bound zero le = bit_and-bitwise 0 0
bit_and_none zero (suc a) le = absurd (omega arith)
bit_and_none (suc bound) (suc a) le =
    omega (arith, bit_and_low 0 (suc a), bit_and_none bound (suc a / 2) (omega arith))

bit_and_mask1 : (a : ℕ) → bit_and a 1 ≡ a % 2
bit_and_mask1 a = omega (arith, bit_and_low 1 a, bit_and_none a (a / 2) (omega arith))

bit_and_mask2 : (a : ℕ) → bit_and a 3 ≡ a % 4
bit_and_mask2 a = omega (arith, bit_and_low 3 a, bit_and_mask1 (a / 2))

pub bit_and_mask3 : (a : ℕ) → bit_and a 7 ≡ a % 8
bit_and_mask3 a = omega (arith, bit_and_low 7 a, bit_and_mask2 (a / 2))

bit_and_mask4 : (a : ℕ) → bit_and a 15 ≡ a % 16
bit_and_mask4 a = omega (arith, bit_and_low 15 a, bit_and_mask3 (a / 2))

bit_and_mask5 : (a : ℕ) → bit_and a 31 ≡ a % 32
bit_and_mask5 a = omega (arith, bit_and_low 31 a, bit_and_mask4 (a / 2))

bit_and_mask6 : (a : ℕ) → bit_and a 63 ≡ a % 64
bit_and_mask6 a = omega (arith, bit_and_low 63 a, bit_and_mask5 (a / 2))

pub bit_and_mask7 : (a : ℕ) → bit_and a 127 ≡ a % 128
bit_and_mask7 a = omega (arith, bit_and_low 127 a, bit_and_mask6 (a / 2))

bit_or_low : (b a : ℕ) → bit_or a b ≡ bit_or (a / 2) (b / 2) * 2 + max (a % 2) (b % 2)
bit_or_low b zero = omega (arith, bit_or-bitwise 0 b, bit_or-bitwise 0 (b / 2))
bit_or_low b (suc a) =
    bit_or-bitwise (suc a) b
    ∙ digits-lowest (λ b. b) max b a
    ∙ ap (λ (high : ℕ). high * 2 + max (suc a % 2) (b % 2))
        (sym (bit_or-bitwise (suc a / 2) (b / 2)))

bit_or_none : (bound a : ℕ) → a ≤ bound → bit_or a 0 ≡ a
bit_or_none bound zero le = bit_or-bitwise 0 0
bit_or_none zero (suc a) le = absurd (omega arith)
bit_or_none (suc bound) (suc a) le =
    omega (arith, bit_or_low 0 (suc a), bit_or_none bound (suc a / 2) (omega arith))

-- `a | x << s` is a sum where `a` has no bit from `s` on.
pub bit_or_disjoint : (s a x : ℕ) → a < 2 ^ s → bit_or a (x * 2 ^ s) ≡ a + x * 2 ^ s
bit_or_disjoint zero zero x h = omega (arith, bit_or-bitwise 0 (x * 2 ^ 0))
bit_or_disjoint zero (suc a) x h = absurd (omega arith)
bit_or_disjoint (suc s) a x h =
    let p : 2 ^ suc s ≡ 2 ^ s * 2 = pow-suc 2 s in
    let e : x * 2 ^ suc s ≡ x * 2 ^ s * 2 = omega (arith, ap (λ (t : ℕ). x * t) p) in
    let d : x * 2 ^ s * 2 / 2 ≡ x * 2 ^ s = omega arith in
    rw e (
      omega (
        arith,
        bit_or_low (x * 2 ^ s * 2) a,
        ap (bit_or (a / 2)) d,
        bit_or_disjoint s (a / 2) x (omega arith),
      ))

pub bit_or_one : (a : ℕ) → bit_or a 1 ≡ a / 2 * 2 + 1
bit_or_one a = omega (arith, bit_or_low 1 a, bit_or_none a (a / 2) (omega arith))

-- Setting the top bit of a group of seven.
pub bit_or_top : (a : ℕ) → a < 128 → bit_or a 128 ≡ a + 128
bit_or_top a h = bit_or_disjoint 7 a 1 h

pub bit_or-lt : (n a b : ℕ) → a < 2 ^ n → b < 2 ^ n → bit_or a b < 2 ^ n
bit_or-lt zero zero zero h k = omega (arith, bit_or-bitwise 0 0)
bit_or-lt zero zero (suc b) h k = absurd (omega arith)
bit_or-lt zero (suc a) b h k = absurd (omega arith)
bit_or-lt (suc n) a b h k =
    let p : 2 ^ suc n ≡ 2 ^ n * 2 = pow-suc 2 n in
    omega (arith, bit_or_low b a, bit_or-lt n (a / 2) (b / 2) (omega arith) (omega arith))
