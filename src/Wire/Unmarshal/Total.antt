-- ===== src/Wire/Unmarshal/Total.antt =====
-- `unmarshal` ends on every input, without a panic.
use Prim.Native.Nat.{bit_and}
use chain_rice.Common.{
  ℕ, zero, suc, ◌≤◌, ◌<◌, ◌≡◌, ◌≢◌, refl, ap, ◌∙◌, GoString, Option, none, some, [], ◌∷◌, Bytes,
  length, length-drop, length-take-le, arith, inl, inr,
}
use chain_rice.Common.Result.{Error, ok, panic, Result-cases}
use chain_rice.Wire.Varint.{read_varint}
use chain_rice.Wire.Varint.Decode.{read_varint_takes, read_varint-ne-panic}
use chain_rice.Wire.Skip.{IsSlice, skip, skip-ne-panic, skip_pos}
use chain_rice.Wire.Unmarshal.{
  Handler, field_num, read_payload, skip_unknown, step_default, unmarshal_step, unmarshal_loop,
  unmarshal, IsTame,
}

pub read_payload-ne-panic : (l : ℕ) (rest : Bytes) (e : Error) → read_payload l rest ≢ panic e
unfolding read_payload
read_payload-ne-panic l rest e = elim (Result-cases (read_varint rest)) [
  | inl ((len, r), p) ↦ rw p (ground arith)
  | inr (inl (x, p)) ↦ rw p (ground arith)
  | inr (inr (x, p)) ↦ absurd (read_varint-ne-panic rest x p)
]

pub read_payload_shrinks :
    (l : ℕ) (rest : Bytes) (p r : Bytes)
    → read_payload l rest ≡ ok (p, r)
    → (length r < length rest) × (length p < length rest)
unfolding read_payload
read_payload_shrinks l rest p r e = elim (Result-cases (read_varint rest)) [
  | inl ((len, r'), q) ↦
      ground (arith, read_varint_takes rest len r' q, length-drop len r', length-take-le len r')
  | inr (inl (x, q)) ↦ ground arith
  | inr (inr (x, q)) ↦ ground arith
]

skip_unknown-ne-panic :
    (l : ℕ) (rest : Bytes) (e : Error) → IsSlice rest → skip_unknown l rest ≢ panic e
unfolding skip_unknown
skip_unknown-ne-panic l rest e s = elim (Result-cases (skip rest)) [
  | inl (n, p) ↦ rw p (ground arith)
  | inr (inl (x, p)) ↦ rw p (ground arith)
  | inr (inr (x, p)) ↦ absurd (skip-ne-panic rest s x p)
]

skip_unknown_shrinks :
    (l : ℕ) (rest r : Bytes) → IsSlice rest → skip_unknown l rest ≡ ok r → length r < length rest
unfolding skip_unknown
skip_unknown_shrinks l rest r s e = elim (Result-cases (skip rest)) [
  | inl (n, p) ↦ ground (arith, skip_pos rest s n p, length-drop n rest)
  | inr (inl (x, p)) ↦ ground arith
  | inr (inr (x, p)) ↦ ground arith
]

module _ {M : Type 0} (name : GoString) {field : Handler M} (tame : IsTame field) where
  default-ne-panic :
      (l : ℕ) (rest : Bytes) (m : M) (o : Option (M × Bytes)) (e : Error)
      → IsSlice rest
      → step_default l rest m o ≢ panic e
  default-ne-panic l rest m none e s = ground (arith, skip_unknown-ne-panic l rest e s)
  default-ne-panic l rest m (some p) e s = ground arith

  unmarshal_step-ne-panic :
      (l : ℕ) (rest : Bytes) (m : M) (e : Error)
      → IsSlice rest
      → unmarshal_step name field l rest m ≢ panic e
  unfolding unmarshal_step
  unmarshal_step-ne-panic l rest m e s = elim (Result-cases (read_varint rest)) [
    | inl ((wire, r), p) ↦
        let took = read_varint_takes rest wire r p in
        rw p (elim (Result-cases (field l (field_num wire) (bit_and wire 7) r m)) [
          | inl (o, q) ↦ ground (arith, default-ne-panic l rest m o e s)
          | inr (inl (x, q)) ↦ ground arith
          | inr (inr (x, q)) ↦
              absurd (tame.calm l (field_num wire) (bit_and wire 7) r m x (omega arith) q)
        ])
    | inr (inl (x, p)) ↦ rw p (ground arith)
    | inr (inr (x, p)) ↦ absurd (read_varint-ne-panic rest x p)
  ]

  default_shrinks :
      (l : ℕ) (rest r : Bytes) (m m' : M) (r' : Bytes) (o : Option (M × Bytes))
      → IsSlice rest
      → length r < length rest
      → ((m'' : M) (r'' : Bytes) → o ≡ some (m'', r'') → length r'' ≤ length r)
      → step_default l rest m o ≡ ok (m', r')
      → length r' < length rest
  default_shrinks l rest r m m' r' none s h k e = elim (Result-cases (skip_unknown l rest)) [
    | inl (x, p) ↦ ground (arith, skip_unknown_shrinks l rest x s p)
    | inr (inl (x, p)) ↦ ground arith
    | inr (inr (x, p)) ↦ ground arith
  ]
  default_shrinks l rest r m m' r' (some (a, b)) s h k e = ground (arith, k a b refl)

  pub unmarshal_step_shrinks :
      (l : ℕ) (rest : Bytes) (m m' : M) (r' : Bytes)
      → IsSlice rest
      → unmarshal_step name field l rest m ≡ ok (m', r')
      → length r' < length rest
  unfolding unmarshal_step
  unmarshal_step_shrinks l rest m m' r' s e = elim (Result-cases (read_varint rest)) [
    | inl ((wire, r), p) ↦ elim (Result-cases (field l (field_num wire) (bit_and wire 7) r m)) [
      | inl (o, q) ↦ ground (
        arith,
        default_shrinks l rest r m m' r' o s (read_varint_takes rest wire r p).1
            λ m'' r'' x. tame.shrinks l (field_num wire) (bit_and wire 7) r m m'' r'' (q ∙ ap ok x),
      )
      | inr (inl (x, q)) ↦ ground arith
      | inr (inr (x, q)) ↦ ground arith
    ]
    | inr (inl (x, p)) ↦ ground arith
    | inr (inr (x, p)) ↦ ground arith
  ]

  unmarshal_loop-ne-panic :
      (fuel l : ℕ) (src : Bytes) (m : M) (e : Error)
      → IsSlice src
      → length src ≤ fuel
      → unmarshal_loop name field fuel l src m ≢ panic e
  unfolding unmarshal_loop
  unmarshal_loop-ne-panic fuel l [] m e s h = ground arith
  unmarshal_loop-ne-panic zero l (b ∷ bs) m e s h = absurd (omega arith)
  unmarshal_loop-ne-panic (suc fuel) l (b ∷ bs) m e s h =
      elim (Result-cases (unmarshal_step name field l (b ∷ bs) m)) [
        | inl ((m', rest), p) ↦
            let shorter = unmarshal_step_shrinks l (b ∷ bs) m m' rest s p in
            rw p (unmarshal_loop-ne-panic fuel l rest m' e (omega arith) (omega arith))
        | inr (inl (x, p)) ↦ rw p (ground arith)
        | inr (inr (x, p)) ↦ absurd (unmarshal_step-ne-panic l (b ∷ bs) m x s p)
      ]

  -- Whatever the input, `unmarshal` returns a message or an error.
  pub unmarshal-ne-panic :
      (src : Bytes) (m : M) (e : Error) → IsSlice src → unmarshal name field src m ≢ panic e
  unfolding unmarshal
  unmarshal-ne-panic src m e s =
      unmarshal_loop-ne-panic (length src) (length src) src m e s (omega arith)
