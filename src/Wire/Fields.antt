-- ===== src/Wire/Fields.antt =====
-- Fields that a message does not have, in the loop of the `Unmarshal` methods.
use mathlib.Core.List.{append_assoc}
use chain_rice.Common.{
  ℕ, suc, ◌+◌, ◌-◌, ◌^◌, ◌≤◌, ◌<◌, ◌≡◌, refl, ◌∙◌, GoString, Bool, false, Option, none, some, List,
  [], ◌∷◌, ◌++◌, Bytes, length, length-append, drop-append, ltb, ◌==◌, arith,
}
use chain_rice.Common.Bits.{bit_and_mask3}
use chain_rice.Common.Result.{ok}
use chain_rice.Wire.Varint.Encode.{varint}
use chain_rice.Wire.Varint.Decode.{read_varint-varint}
use chain_rice.Wire.Skip.{IsSlice, is_negative}
use chain_rice.Wire.Tokens.{
  Payload, number, fixed64, delimited, start, stop, fixed32, wire_type, payload_bytes, Token,
  IsToken, token_bytes, token-nonempty, depth_after, Closes, last, more, tokens_bytes, skip-tokens,
}
use chain_rice.Wire.Unmarshal.{
  Handler, field_num, is_illegal_tag, skip_unknown, unmarshal_step, unmarshal, IsTame,
}
use chain_rice.Wire.Unmarshal.Steps.{run, run-step, run-nil}

-- The tokens of one field, whose number is legal and not one of those that the message knows.
pub data IsField (known : ℕ → Bool) : List Token → Type 0 where
  field_of :
      {t : Token} {ts : List Token}
      → Closes 0 (t ∷ ts)
      → is_illegal_tag (field_num t.tag) ≡ false
      → known (field_num t.tag) ≡ false
      → IsField known (t ∷ ts)

first-IsToken : {d : ℕ} {t : Token} {ts : List Token} → Closes d (t ∷ ts) → IsToken t
first-IsToken (last good e) = good
first-IsToken (more good e closes) = good

-- No field begins with the end of a group.
not_stop :
    (p : Payload) (o : Option ℕ) (d : ℕ)
    → depth_after p 0 ≡ o
    → o ≡ some d
    → (wire_type p == 4) ≡ false
not_stop (number v) o d h e = refl
not_stop (fixed64 v) o d h e = refl
not_stop (delimited v) o d h e = refl
not_stop start o d h e = refl
not_stop stop o d h e = absurd (ground (arith, h, e))
not_stop (fixed32 v) o d h e = refl

first-not_stop :
    {t : Token} {ts : List Token} → Closes 0 (t ∷ ts) → (wire_type t.payload == 4) ≡ false
first-not_stop {t = t} (last good e) = not_stop t.payload _ 0 e refl
first-not_stop {t = t} (more {d' = d'} good e closes) = not_stop t.payload _ (suc d') e refl

skip_unknown-tokens :
    (l : ℕ) (ts : List Token) (rest : Bytes)
    → Closes 0 ts
    → l < 2 ^ 63
    → length (tokens_bytes ts ++ rest) ≤ l
    → skip_unknown l (tokens_bytes ts ++ rest) ≡ ok rest
unfolding skip_unknown
skip_unknown-tokens l ts rest closes hl le =
    let sizes = length-append (tokens_bytes ts) rest in
    let inside : is_negative (l - length (tokens_bytes ts ++ rest) + length (tokens_bytes ts))
        ≡ false =
      ground (arith, sizes, le, hl) in
    let enough : ltb (length (tokens_bytes ts ++ rest)) (length (tokens_bytes ts)) ≡ false =
      ground (arith, sizes) in
    rw
      (
        skip-tokens ts rest closes (omega (arith, le, hl)),
        inside,
        enough,
        drop-append (tokens_bytes ts) rest,
      )
      refl

-- The handler of a message that knows the fields with these numbers.
pub record Knows {M : Type 0} (field : Handler M) (known : ℕ → Bool) : Type 0 where
  pub passes : (l n t : ℕ) (r : Bytes) (m : M) → known n ≡ false → field l n t r m ≡ ok none

module _ {M : Type 0} (name : GoString) (field : Handler M) (tame : IsTame field) (known : ℕ → Bool)
    (knows : Knows field known) where
  pub unmarshal_step-unknown :
      (l : ℕ) (ts : List Token) (rest : Bytes) (m : M)
      → IsField known ts
      → l < 2 ^ 63
      → length (tokens_bytes ts ++ rest) ≤ l
      → unmarshal_step name field l (tokens_bytes ts ++ rest) m ≡ ok (m, rest)
  unfolding unmarshal_step
  unmarshal_step-unknown l [] rest m x hl le = elim x [ ]
  unmarshal_step-unknown l (t ∷ ts) rest m (field_of closes legal new) hl le =
      let good = first-IsToken closes in
      let body : Bytes = payload_bytes t.payload ++ (tokens_bytes ts ++ rest) in
      let whole : tokens_bytes (t ∷ ts) ++ rest ≡ varint t.tag ++ body =
        append_assoc (token_bytes t) (tokens_bytes ts) rest
        ∙ append_assoc (varint t.tag) (payload_bytes t.payload) (tokens_bytes ts ++ rest) in
      let passed : skip_unknown l (varint t.tag ++ body) ≡ ok rest =
        rw whole at (skip_unknown-tokens l (t ∷ ts) rest closes hl le) in
      rw
        (
          whole,
          read_varint-varint t.tag body good.small,
          bit_and_mask3 t.tag,
          good.type,
          first-not_stop closes,
          legal,
          knows.passes l (field_num t.tag) (wire_type t.payload) body m new,
          passed,
        )
        refl

  -- A round that leaves the message and the rest behind.
  pub run-round :
      (l : ℕ) (src rest : Bytes) (m m' : M)
      → IsSlice src
      → 1 ≤ length src
      → unmarshal_step name field l src m ≡ ok (m', rest)
      → run name field tame l src m ≡ run name field tame l rest m'
  run-round l [] rest m m' s full e = absurd (omega (arith, full))
  run-round l (b ∷ bs) rest m m' s full e = run-step name field tame l b bs m m' rest s e

-- The bytes of fields one after the other.
abbrev pub fields_bytes : List (List Token) → Bytes
fields_bytes [] = []
fields_bytes (ts ∷ fs) = tokens_bytes ts ++ fields_bytes fs

pub data AreFields (known : ℕ → Bool) : List (List Token) → Type 0 where
  none_left : AreFields known []
  one_more :
      {ts : List Token} {fs : List (List Token)}
      → IsField known ts
      → AreFields known fs
      → AreFields known (ts ∷ fs)

pub field-nonempty :
    (known : ℕ → Bool) (ts : List Token) (rest : Bytes)
    → IsField known ts
    → 1 ≤ length (tokens_bytes ts ++ rest)
field-nonempty known [] rest x = elim x [ ]
field-nonempty known (t ∷ ts) rest x = omega (
  arith,
  token-nonempty t,
  length-append (token_bytes t) (tokens_bytes ts),
  length-append (tokens_bytes (t ∷ ts)) rest,
)

module _ {M : Type 0} (name : GoString) (field : Handler M) (tame : IsTame field) (known : ℕ → Bool)
    (knows : Knows field known) where
  run-unknown :
      (l : ℕ) (fs : List (List Token)) (m : M)
      → AreFields known fs
      → l < 2 ^ 63
      → length (fields_bytes fs) ≤ l
      → run name field tame l (fields_bytes fs) m ≡ ok m
  run-unknown l [] m none_left hl le = run-nil name field tame l m
  run-unknown l (ts ∷ fs) m (one_more x xs) hl le =
      run-round name field tame known knows l (tokens_bytes ts ++ fields_bytes fs) (fields_bytes fs)
        m m (omega (arith, hl, le)) (field-nonempty known ts (fields_bytes fs) x)
        (unmarshal_step-unknown name field tame known knows l ts (fields_bytes fs) m x hl le)
      ∙ run-unknown l fs m xs hl
          (omega (arith, le, length-append (tokens_bytes ts) (fields_bytes fs)))

  -- Fields that the message does not have leave it as it is.
  pub unmarshal-unknown :
      (fs : List (List Token)) (m : M)
      → AreFields known fs
      → IsSlice (fields_bytes fs)
      → unmarshal name field (fields_bytes fs) m ≡ ok m
  unfolding unmarshal
  unmarshal-unknown fs m xs s = run-unknown (length (fields_bytes fs)) fs m xs s (omega arith)
