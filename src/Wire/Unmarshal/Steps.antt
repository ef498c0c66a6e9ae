-- ===== src/Wire/Unmarshal/Steps.antt =====
-- How `unmarshal` takes a well-formed input apart, field by field.

use chain_rice.Common.{
  ℕ, zero, suc, ◌/◌, ◌%◌, ◌^◌, ◌≤◌, ◌<◌, ◌≡◌, ◌≢◌, refl, GoString, some, [], ◌∷◌, ◌++◌, Bytes,
  length, length-append, take-append, drop-append, arith, inl, inr,
}
use chain_rice.Common.Bits.{bit_and_mask3}
use chain_rice.Common.Result.{Result, ok, Result-cases}
use chain_rice.Wire.Varint.{read_varint}
use chain_rice.Wire.Varint.Encode.{varint, groups}
use chain_rice.Wire.Varint.Decode.{read_varint-varint}
use chain_rice.Wire.Skip.{IsSlice}
use chain_rice.Wire.Unmarshal.{
  Handler, field_num, read_payload, unmarshal_step, unmarshal_loop, IsTame,
}
use chain_rice.Wire.Unmarshal.Total.{unmarshal_step_shrinks}

-- A payload behind its length comes back, with what follows it.
pub read_payload-append :
    (l : ℕ) (p r : Bytes)
    → l < 2 ^ 63
    → IsSlice p
    → read_payload l (varint (length p) ++ (p ++ r)) ≡ ok (p, r)
unfolding read_payload
read_payload-append l p r hl hp =
    rw (read_varint-varint (length p) (p ++ r) (omega arith))
      (ground (arith, length-append p r, take-append p r, drop-append p r))

-- A tag of one byte.
pub read_tag : (t : ℕ) (r : Bytes) → t < 128 → read_varint (t ∷ r) ≡ ok (t, r)
unfolding groups
read_tag t r h =
    let e : varint t ≡ t ∷ [] = ground arith in rw e at (read_varint-varint t r (omega arith))

module _ {M : Type 0} (name : GoString) (field : Handler M) where
  pub unmarshal_step_known :
      (l t : ℕ) (r : Bytes) (m m' : M) (r' : Bytes)
      → 8 ≤ t
      → t < 128
      → t % 8 ≢ 4
      → field l (t / 8) (t % 8) r m ≡ ok (some (m', r'))
      → unmarshal_step name field l (t ∷ r) m ≡ ok (m', r')
  unfolding unmarshal_step
  unmarshal_step_known l t r m m' r' lo hi type e =
      let n : field_num t ≡ t / 8 = omega arith in
      rw (read_tag t r hi, bit_and_mask3 t, n) (ground arith)

  module _ (tame : IsTame field) where
    -- Rounds beyond the bytes of the input change nothing.
    unmarshal_loop-fuel :
        (f g l : ℕ) (src : Bytes) (m : M)
        → IsSlice src
        → length src ≤ f
        → length src ≤ g
        → unmarshal_loop name field f l src m ≡ unmarshal_loop name field g l src m
    unfolding unmarshal_loop
    unmarshal_loop-fuel f g l [] m s hf hg = refl
    unmarshal_loop-fuel zero g l (b ∷ bs) m s hf hg = absurd (omega arith)
    unmarshal_loop-fuel (suc f) zero l (b ∷ bs) m s hf hg = absurd (omega arith)
    unmarshal_loop-fuel (suc f) (suc g) l (b ∷ bs) m s hf hg =
        elim (Result-cases (unmarshal_step name field l (b ∷ bs) m)) [
          | inl ((m', rest), p) ↦
              let shorter = unmarshal_step_shrinks name tame l (b ∷ bs) m m' rest s p in
              rw p (unmarshal_loop-fuel f g l rest m' (omega arith) (omega arith) (omega arith))
          | inr (inl (x, p)) ↦ rw p
          | inr (inr (x, p)) ↦ rw p
        ]

    -- The rest of an input of length `l`.
    abbrev pub run : ℕ → Bytes → M → Result M
    run l src m = unmarshal_loop name field (length src) l src m

    pub run-step :
        (l b : ℕ) (bs : Bytes) (m m' : M) (rest : Bytes)
        → IsSlice (b ∷ bs)
        → unmarshal_step name field l (b ∷ bs) m ≡ ok (m', rest)
        → run l (b ∷ bs) m ≡ run l rest m'
    unfolding unmarshal_loop
    run-step l b bs m m' rest s e =
        let shorter = unmarshal_step_shrinks name tame l (b ∷ bs) m m' rest s e in
        rw e (
          unmarshal_loop-fuel (length bs) (length rest) l rest m' (omega arith) (omega arith)
            (omega arith))

    pub run-nil : (l : ℕ) (m : M) → run l [] m ≡ ok m
    unfolding unmarshal_loop
    run-nil l m = refl

-- An empty payload.
pub read_payload-zero : (l : ℕ) (r : Bytes) → l < 2 ^ 63 → read_payload l (0 ∷ r) ≡ ok ([], r)
unfolding groups
read_payload-zero l r h = read_payload-append l [] r h (omega arith)
