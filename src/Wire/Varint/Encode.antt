-- ===== src/Wire/Varint/Encode.antt =====
-- `encode_varint` writes the groups of seven bits of its number, and `sov` counts them.
use Prim.Native.Nat.{bit_and, bit_or}
use native.Mathlib.Nat.{pow-suc}
use mathlib.Core.List.{append_assoc}
use chain_rice.Common.{
  ℕ, zero, suc, ◌+◌, ◌*◌, ◌/◌, ◌%◌, ◌^◌, ◌<◌, ◌≤◌, ◌≡◌, ◌≢◌, refl, ap, [], ◌∷◌, ◌++◌, ltb,
  if◌then◌else◌, Bytes, length, length-append, set-append, arith, Bool-cases, inl, inr,
}
use chain_rice.Common.Bits.{bit_and_mask7, bit_or_top, bit_or_one}
use chain_rice.Common.Result.{ok}
use chain_rice.Wire.Varint.{
  index_sub, sov, put_loop, encode_varint, IsU64, len64_loop, sov, put_byte, put_loop,
}

-- The groups of `v`, lowest first, for `v` below 128 ^ (k + 1).
unfoldable pub groups : ℕ → ℕ → Bytes
groups zero v = v ∷ []
groups (suc k) v =
    let rest = groups k (v / 128) in if ltb v 128 then v ∷ [] else (v % 128 + 128) ∷ rest

abbrev pub varint : ℕ → Bytes
varint v = groups 9 v

pub groups-nonempty : (k v : ℕ) → 1 ≤ length (groups k v)
unfolding groups
groups-nonempty zero v = omega arith
groups-nonempty (suc k) v = ground arith

len64_loop-le : (j f x : ℕ) → x < 2 ^ j → len64_loop f x ≤ j
unfolding len64_loop
len64_loop-le j zero x h = omega arith
len64_loop-le zero (suc f) x h = ground arith
len64_loop-le (suc j) (suc f) x h = ground (arith, pow-suc 2 j, len64_loop-le j f (x / 2))

len64_loop_pos : (f x : ℕ) → x ≢ 0 → 1 ≤ len64_loop (suc f) x
unfolding len64_loop
len64_loop_pos f x h = ground arith

len64_loop_half : (f x : ℕ) → x ≢ 0 → len64_loop (suc f) x ≡ suc (len64_loop f (x / 2))
unfolding len64_loop
len64_loop_half f x h = ground arith

-- One more round changes nothing for a number that the rounds have used up.
len64_loop_fuel : (f x : ℕ) → x < 2 ^ f → len64_loop (suc f) x ≡ len64_loop f x
unfolding len64_loop
len64_loop_fuel zero x h = ground arith
len64_loop_fuel (suc f) x h = ground (arith, pow-suc 2 f, len64_loop_fuel f (x / 2))

-- Seven more rounds for a number of eight bits or more.
abbrev seven_more : ℕ → ℕ
seven_more f = suc (suc (suc (suc (suc (suc (suc f))))))

len64_loop_seven : (f x : ℕ) → 128 ≤ x → len64_loop (seven_more f) x ≡ 7 + len64_loop f (x / 128)
len64_loop_seven f x h = omega (
  arith,
  len64_loop_half (suc (suc (suc (suc (suc (suc f)))))) x (omega arith),
  len64_loop_half (suc (suc (suc (suc (suc f))))) (x / 2) (omega arith),
  len64_loop_half (suc (suc (suc (suc f)))) (x / 2 / 2) (omega arith),
  len64_loop_half (suc (suc (suc f))) (x / 2 / 2 / 2) (omega arith),
  len64_loop_half (suc (suc f)) (x / 2 / 2 / 2 / 2) (omega arith),
  len64_loop_half (suc f) (x / 2 / 2 / 2 / 2 / 2) (omega arith),
  len64_loop_half f (x / 2 / 2 / 2 / 2 / 2 / 2) (omega arith),
  ap (len64_loop f) (eighth x),
)
  where
    eighth : (x : ℕ) → x / 2 / 2 / 2 / 2 / 2 / 2 / 2 ≡ x / 128
    eighth x = omega arith

-- Setting the lowest bit does not change the length of a number that is not 0.
len64_loop_odd : (f x : ℕ) → x ≢ 0 → len64_loop f (x / 2 * 2 + 1) ≡ len64_loop f x
unfolding len64_loop
len64_loop_odd zero x h = refl
len64_loop_odd (suc f) x h = omega (
  arith,
  len64_loop_half f x h,
  len64_loop_half f (x / 2 * 2 + 1) (omega arith),
  ap (len64_loop f) (same x),
)
  where
    same : (x : ℕ) → (x / 2 * 2 + 1) / 2 ≡ x / 2
    same x = omega arith

abbrev rounds : ℕ → ℕ
rounds zero = 7
rounds (suc k) = seven_more (rounds k)

-- Rounding the bits of a number up to whole groups counts its groups.
len64_loop-groups :
    (k v : ℕ)
    → v < 128 ^ suc k
    → (len64_loop (rounds k) (v / 2 * 2 + 1) + 6) / 7 ≡ length (groups k v)
unfolding groups
len64_loop-groups zero v h = omega (
  arith,
  len64_loop-le 7 7 (v / 2 * 2 + 1) (omega arith),
  len64_loop_pos 6 (v / 2 * 2 + 1) (omega arith),
)
len64_loop-groups (suc k) v h = elim (Bool-cases (ltb v 128)) [
  | inl small ↦ rw small (
      omega (
        arith,
        len64_loop-le 7 (rounds (suc k)) (v / 2 * 2 + 1) (ground arith),
        len64_loop_pos (suc (suc (suc (suc (suc (suc (rounds k))))))) (v / 2 * 2 + 1) (omega arith),
      ))
  | inr large ↦ rw large (
      let big : 128 ≤ v = ground arith in
      let e : (v / 2 * 2 + 1) / 128 ≡ v / 128 = omega arith in
      omega (
        arith,
        len64_loop_seven (rounds k) (v / 2 * 2 + 1) (omega arith),
        ap (len64_loop (rounds k)) e,
        len64_loop_odd (rounds k) (v / 128) (omega arith),
        len64_loop-groups k (v / 128) (omega (arith, pow-suc 128 (suc k))),
      ))
]

len64_loop_seventy : (x : ℕ) → IsU64 x → len64_loop 64 x ≡ len64_loop 70 x
len64_loop_seventy x h = omega (
  arith,
  len64_loop_fuel 64 x (omega arith),
  len64_loop_fuel 65 x (omega arith),
  len64_loop_fuel 66 x (omega arith),
  len64_loop_fuel 67 x (omega arith),
  len64_loop_fuel 68 x (omega arith),
  len64_loop_fuel 69 x (omega arith),
)

-- `sov` of a uint64 is the number of bytes of its encoding `varint v`.
pub sov-varint : (v : ℕ) → IsU64 v → sov v ≡ length (varint v)
unfolding sov
sov-varint v h =
    rw (bit_or_one v, len64_loop_seventy (v / 2 * 2 + 1) (omega arith))
      (len64_loop-groups 9 v (omega arith))

-- Writing over the first byte of a gap, which begins at `length pre`.
pub put_byte-append :
    (pre : Bytes) (y : ℕ) (post : Bytes) (x : ℕ)
    → put_byte (pre ++ (y ∷ post)) (length pre) x ≡ ok (pre ++ (x ∷ post))
unfolding put_byte
put_byte-append pre y post x = ground (arith, length-append pre (y ∷ post), set-append pre y post x)

inner_group : (v : ℕ) → bit_or (bit_and v 0x7f) 0x80 % 256 ≡ v % 128 + 128
inner_group v = rw (bit_and_mask7 v, bit_or_top (v % 128) (omega arith)) (omega arith)

last_group :
    (v : ℕ) (pre : Bytes) (y : ℕ) (gap post : Bytes)
    → v < 128
    → length gap ≡ 0
    → put_byte (pre ++ (y ∷ (gap ++ post))) (length pre) (v % 256) ≡ ok (pre ++ (v ∷ post))
last_group v pre y [] post h e = ground (arith, put_byte-append pre y post (v % 256))
last_group v pre y (z ∷ gap) post h e = absurd (omega arith)

-- The loop fills a gap that has the length of the groups with the groups.
pub put_loop-groups :
    (k v : ℕ) (pre gap post : Bytes)
    → v < 128 ^ suc k
    → length gap ≡ length (groups k v)
    → put_loop (suc k) (pre ++ (gap ++ post)) (length pre) v ≡ ok (pre ++ (groups k v ++ post))
unfolding put_loop groups
put_loop-groups k v pre [] post h e = absurd (omega (arith, groups-nonempty k v))
put_loop-groups zero v pre (y ∷ []) post h e = ground (arith, put_byte-append pre y post (v % 256))
put_loop-groups zero v pre (y ∷ z ∷ gap) post h e = absurd (omega arith)
put_loop-groups (suc k) v pre (y ∷ gap) post h e = elim (Bool-cases (ltb v 128)) [
  | inl small ↦ rw small (last_group v pre y gap post (ground arith) (ground arith))
  | inr large ↦
      let g : ℕ = v % 128 + 128 in
      let pre' : Bytes = pre ++ (g ∷ []) in
      let ih : put_loop (suc k) (pre' ++ (gap ++ post)) (length pre') (v / 128)
          ≡ ok (pre' ++ (groups k (v / 128) ++ post)) =
        put_loop-groups k (v / 128) pre' gap post (omega (arith, pow-suc 128 (suc k)))
          (ground arith) in
      rw (large, inner_group v, put_byte-append pre y (gap ++ post) g)
        (rw (append_assoc pre (g ∷ []) (gap ++ post), append_assoc, length-append) at ih)
]

-- On a uint64 `v` and a buffer with a gap of the length of `varint v` before the offset,
-- `encode_varint` fills that gap with `varint v`, leaves the other bytes, and returns where it begins.
pub encode_varint-append :
    (v : ℕ) (pre gap post : Bytes)
    → IsU64 v
    → length gap ≡ length (varint v)
    → encode_varint (pre ++ (gap ++ post)) (length pre + length gap) v
      ≡ ok (pre ++ (varint v ++ post), length pre)
unfolding encode_varint
encode_varint-append v pre gap post h e =
    let start : index_sub (length pre + length gap) (sov v) ≡ ok (length pre) =
      rw (sov-varint v h) (ground arith) in
    rw (start, put_loop-groups 9 v pre gap post (omega arith) e)
