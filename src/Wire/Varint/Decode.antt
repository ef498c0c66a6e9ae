-- ===== src/Wire/Varint/Decode.antt =====
-- Reading a varint: what `encode_varint` wrote, and any other input.
use Prim.Native.Nat.{bit_and}
use native.Mathlib.Nat.{pow-suc, div-add-mod}
use native.Mathlib.Numerals.{towards_suc}
use chain_rice.Common.{
  ℕ, zero, suc, ◌+◌, ◌*◌, ◌/◌, ◌%◌, ◌^◌, ◌<◌, ◌≤◌, ◌≡◌, ◌≢◌, ap, ◌∙◌, [], ◌∷◌, ◌++◌, ltb, Bytes,
  length, arith, Bool-cases, inl, inr,
}
use chain_rice.Common.Bits.{bit_and_mask7, bit_or_disjoint, bit_or-lt}
use chain_rice.Common.Result.{Error, ok, panic}
use chain_rice.Wire.Varint.{IsU64, add_group, read_loop, read_varint}
use chain_rice.Wire.Varint.Encode.{groups, varint}

-- A group lands above the bits that are there.
add_group_lem :
    (acc b shift : ℕ)
    → acc < 2 ^ shift
    → b % 128 * 2 ^ shift < 2 ^ 64
    → add_group acc b shift ≡ acc + b % 128 * 2 ^ shift
add_group_lem acc b shift h k =
    let e : bit_and b 0x7f * 2 ^ shift % 2 ^ 64 ≡ b % 128 * 2 ^ shift =
      rw (bit_and_mask7 b) (omega arith) in
    rw e (bit_or_disjoint shift acc (b % 128) h)

next_shift : (n : ℕ) → 2 ^ (n + 7) ≡ 2 ^ n * 128
next_shift n = simp towards_suc (omega arith)

low_group : (n v : ℕ) → v % 128 * 2 ^ n + v / 128 * 2 ^ (n + 7) ≡ v * 2 ^ n
low_group n v =
    let whole = ap (λ (t : ℕ). t * 2 ^ n) (div-add-mod v 128) in
    let high = ap (λ (t : ℕ). v / 128 * t) (next_shift n) in omega (arith, whole, high)

last_byte :
    (v acc shift : ℕ) (rest : Bytes)
    → v < 128
    → shift ≤ 63
    → acc < 2 ^ shift
    → acc + v * 2 ^ shift < 2 ^ 64
    → read_loop (v ∷ rest) shift acc ≡ ok (acc + v * 2 ^ shift, rest)
unfolding read_loop
last_byte v acc shift rest hv hs ha fits =
    let e : v % 128 * 2 ^ shift ≡ v * 2 ^ shift = ap (λ (t : ℕ). t * 2 ^ shift) (omega arith) in
    let g : add_group acc v shift ≡ acc + v * 2 ^ shift =
      add_group_lem acc v shift ha (omega arith) ∙ ap (λ (t : ℕ). acc + t) e in
    ground (arith, g)

inner_byte :
    (g acc shift : ℕ) (rest : Bytes)
    → g < 128
    → shift ≤ 63
    → acc < 2 ^ shift
    → acc + g * 2 ^ shift < 2 ^ 64
    → read_loop ((g + 128) ∷ rest) shift acc ≡ read_loop rest (shift + 7) (acc + g * 2 ^ shift)
unfolding read_loop
inner_byte g acc shift rest hg hs ha fits =
    let e : (g + 128) % 128 * 2 ^ shift ≡ g * 2 ^ shift =
      ap (λ (t : ℕ). t * 2 ^ shift) (omega arith) in
    let s : add_group acc (g + 128) shift ≡ acc + g * 2 ^ shift =
      add_group_lem acc (g + 128) shift ha (omega arith) ∙ ap (λ (t : ℕ). acc + t) e in
    ground (arith, s)

-- What is left to read, `v`, counts from bit `shift` on.
read_loop-groups :
    (k v acc shift : ℕ) (rest : Bytes)
    → v < 128 ^ suc k
    → shift + 7 * k ≤ 63
    → acc < 2 ^ shift
    → acc + v * 2 ^ shift < 2 ^ 64
    → read_loop (groups k v ++ rest) shift acc ≡ ok (acc + v * 2 ^ shift, rest)
unfolding groups
read_loop-groups zero v acc shift rest hv hs ha fits =
    last_byte v acc shift rest hv (omega arith) ha fits
read_loop-groups (suc k) v acc shift rest hv hs ha fits = elim (Bool-cases (ltb v 128)) [
  | inl small ↦ rw small (last_byte v acc shift rest (ground arith) (omega arith) ha fits)
  | inr large ↦
      let split = low_group shift v in
      let low : v % 128 * 2 ^ shift ≤ 127 * 2 ^ shift = grind arith in
      rw
        (
          large,
          inner_byte (v % 128) acc shift (groups k (v / 128) ++ rest) (omega arith) (omega arith) ha
              (omega arith),
        )
        (read_loop-groups k (v / 128) (acc + v % 128 * 2 ^ shift) (shift + 7) rest
            (omega (arith, pow-suc 128 (suc k))) (omega arith) (omega (arith, next_shift shift))
            (omega arith)
          ∙ ap (λ (t : ℕ). ok (t, rest)) (omega arith))
]

-- `read_varint` reads back the uint64 that was written, and leaves what follows it.
pub read_varint-varint :
    (v : ℕ) (rest : Bytes) → IsU64 v → read_varint (varint v ++ rest) ≡ ok (v, rest)
unfolding read_varint
read_varint-varint v rest h =
    read_loop-groups 9 v 0 0 rest (omega arith) (omega arith) (omega arith) (omega arith)
    ∙ ap (λ (t : ℕ). ok (t, rest)) (omega arith)

read_loop_takes :
    (src : Bytes) (shift acc v : ℕ) (rest : Bytes)
    → acc < 2 ^ 64
    → read_loop src shift acc ≡ ok (v, rest)
    → IsU64 v × (length rest < length src)
unfolding read_loop
read_loop_takes [] shift acc v rest h e = ground arith
read_loop_takes (b ∷ bs) shift acc v rest h e = ground (
  arith,
  bit_or-lt 64 acc (bit_and b 0x7f * 2 ^ shift % 2 ^ 64),
  read_loop_takes bs (shift + 7) (add_group acc b shift) v rest,
)

pub read_varint_takes :
    (src : Bytes) (v : ℕ) (rest : Bytes)
    → read_varint src ≡ ok (v, rest)
    → IsU64 v × (length rest < length src)
unfolding read_varint
read_varint_takes src v rest e = read_loop_takes src 0 0 v rest (omega arith) e

read_loop-ne-panic : (src : Bytes) (shift acc : ℕ) (e : Error) → read_loop src shift acc ≢ panic e
unfolding read_loop
read_loop-ne-panic [] shift acc e = ground arith
read_loop-ne-panic (b ∷ bs) shift acc e =
    ground (arith, read_loop-ne-panic bs (shift + 7) (add_group acc b shift) e)

pub read_varint-ne-panic : (src : Bytes) (e : Error) → read_varint src ≢ panic e
unfolding read_varint
read_varint-ne-panic src e = read_loop-ne-panic src 0 0 e
