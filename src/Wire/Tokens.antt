-- ===== src/Wire/Tokens.antt =====
-- What skipTx passes over, as the encoding describes it: tags with their payloads, and groups of them.
-- The code is that of `Wire.Skip`; this file does not follow it.
use mathlib.Core.List.{append_assoc, append-nil}
use chain_rice.Common.{
  ℕ, zero, suc, ◌+◌, ◌-◌, ◌%◌, ◌≤◌, ◌<◌, ◌≡◌, refl, sym, ap, ◌∙◌, Option, none, some, List, [], ◌∷◌,
  ◌++◌, Bytes, length, length-append, drop, drop-append, leb, ◌==◌, arith, false,
}
use chain_rice.Common.Bits.{bit_and_mask3}
use chain_rice.Common.Result.{ok}
use chain_rice.Wire.Varint.{IsU64}
use chain_rice.Wire.Varint.Encode.{varint, groups-nonempty}
use chain_rice.Wire.Varint.Decode.{read_varint-varint}
use chain_rice.Wire.Skip.{IsSlice, is_negative, skip_field, skip_round, skip_loop, skip}

-- The payloads by their wire types, 0 to 5: `start` and `stop` are the ends of a group.
pub data Payload : Type 0 where
  number : ℕ → Payload
  fixed64 delimited : Bytes → Payload
  start stop : Payload
  fixed32 : Bytes → Payload

abbrev pub wire_type : Payload → ℕ
wire_type (number v) = 0
wire_type (fixed64 p) = 1
wire_type (delimited p) = 2
wire_type start = 3
wire_type stop = 4
wire_type (fixed32 p) = 5

abbrev pub payload_bytes : Payload → Bytes
payload_bytes (number v) = varint v
payload_bytes (fixed64 p) = p
payload_bytes (delimited p) = varint (length p) ++ p
payload_bytes start = []
payload_bytes stop = []
payload_bytes (fixed32 p) = p

abbrev pub IsPayload : Payload → Type 0
IsPayload (number v) = IsU64 v
IsPayload (fixed64 p) = length p ≡ 8
IsPayload (delimited p) = IsSlice p
IsPayload start = Unit
IsPayload stop = Unit
IsPayload (fixed32 p) = length p ≡ 4

-- A tag is a field number and a wire type in one number.
pub record Token : Type 0 where
  pub tag : ℕ
  pub payload : Payload

abbrev pub token_bytes : Token → Bytes
token_bytes t = varint t.tag ++ payload_bytes t.payload

pub record IsToken (t : Token) : Type 0 where
  pub small : IsU64 t.tag
  pub type : t.tag % 8 ≡ wire_type t.payload
  pub sound : IsPayload t.payload

-- The depth in groups behind a token.
abbrev pub depth_after : Payload → ℕ → Option ℕ
depth_after (number v) d = some d
depth_after (fixed64 p) d = some d
depth_after (delimited p) d = some d
depth_after start d = some (d + 1)
depth_after stop zero = none
depth_after stop (suc d) = some d
depth_after (fixed32 p) d = some d

-- The tokens from the depth `d` on to the end of a field, which is where the depth is 0 first.
pub data Closes : ℕ → List Token → Type 0 where
  last : {d : ℕ} {t : Token} → IsToken t → depth_after t.payload d ≡ some 0 → Closes d (t ∷ [])
  more :
      {d d' : ℕ} {t : Token} {ts : List Token}
      → IsToken t
      → depth_after t.payload d ≡ some (suc d')
      → Closes (suc d') ts
      → Closes d (t ∷ ts)

abbrev pub tokens_bytes : List Token → Bytes
tokens_bytes [] = []
tokens_bytes (t ∷ ts) = token_bytes t ++ tokens_bytes ts

skip_field-payload :
    (p : Payload) (src post : Bytes) (i d d' : ℕ)
    → IsSlice src
    → drop i src ≡ payload_bytes p ++ post
    → length src ≡ i + length (payload_bytes p ++ post)
    → IsPayload p
    → depth_after p d ≡ some d'
    → skip_field src (wire_type p) i d ≡ ok (i + length (payload_bytes p), d')
unfolding skip_field
skip_field-payload (number v) src post i d d' s at_i size good e =
    rw (at_i, read_varint-varint v post good) (ground (arith, length-append (varint v) post))
skip_field-payload (fixed64 p) src post i d d' s at_i size good e = ground (arith, good, e)
skip_field-payload (delimited p) src post i d d' s at_i size good e =
    let whole : (varint (length p) ++ p) ++ post ≡ varint (length p) ++ (p ++ post) =
      append_assoc (varint (length p)) p post in
    rw (at_i ∙ whole, read_varint-varint (length p) (p ++ post) (omega (arith, good)))
      (ground (
        arith,
        length-append (varint (length p)) p,
        length-append p post,
        length-append (varint (length p) ++ p) post,
      ))
skip_field-payload start src post i d d' s at_i size good e = ground (arith, e)
skip_field-payload stop src post i zero d' s at_i size good e = absurd (ground (arith, e))
skip_field-payload stop src post i (suc d) d' s at_i size good e = ground (arith, e)
skip_field-payload (fixed32 p) src post i d d' s at_i size good e = ground (arith, good, e)

pub token-nonempty : (t : Token) → 1 ≤ length (token_bytes t)
token-nonempty t =
    omega (arith, groups-nonempty 9 t.tag, length-append (varint t.tag) (payload_bytes t.payload))

module _ (pre post : Bytes) (t : Token) (good : IsToken t) where
  abbrev src : Bytes
  src = pre ++ (token_bytes t ++ post)

  length-src : length src ≡ length pre + length (token_bytes t) + length post
  length-src =
      omega (arith, length-append pre (token_bytes t ++ post), length-append (token_bytes t) post)

  skip_round-token :
      (d d' : ℕ)
      → IsSlice src
      → depth_after t.payload d ≡ some d'
      → skip_round src (length pre) d ≡ ok (length pre + length (token_bytes t), d')
  unfolding skip_round
  skip_round-token d d' s e =
      let tag : Bytes = varint t.tag in
      let body : Bytes = payload_bytes t.payload in
      let here : drop (length pre) src ≡ tag ++ (body ++ post) =
        drop-append pre (token_bytes t ++ post) ∙ append_assoc tag body post in
      let sizes : length src ≡ length pre + length tag + length (body ++ post) =
        omega (arith, length-src, length-append tag body, length-append body post) in
      let behind : length src - length (body ++ post) ≡ length pre + length tag =
        omega (arith, sizes) in
      let split : src ≡ (pre ++ tag) ++ (body ++ post) =
        ap (λ (x : Bytes). pre ++ x) (append_assoc tag body post)
        ∙ sym (append_assoc pre tag (body ++ post)) in
      let there : drop (length pre + length tag) src ≡ body ++ post =
        rw (split, sym (length-append pre tag)) (drop-append (pre ++ tag) (body ++ post)) in
      rw
        (
          here,
          read_varint-varint t.tag (body ++ post) good.small,
          bit_and_mask3 t.tag,
          good.type,
          behind,
        )
        (skip_field-payload t.payload src post (length pre + length tag) d d' s there sizes
            good.sound e
          ∙ ap (λ (n : ℕ). ok (n, d')) (omega (arith, length-append tag body)))

-- A round that ends at the depth 0 ends the loop, and any other goes on.
module _ (pre post : Bytes) (t : Token) (good : IsToken t) (fuel d : ℕ)
    (s : IsSlice (src pre post t good)) where
  goes_on : leb (length (src pre post t good)) (length pre) ≡ false
  goes_on = ground (arith, length-src pre post t good, token-nonempty t)

  not_negative : is_negative (length pre + length (token_bytes t)) ≡ false
  not_negative = ground (arith, length-src pre post t good, s)

  skip_loop-last :
      depth_after t.payload d ≡ some 0
      → skip_loop (suc fuel) (src pre post t good) (length pre) d
        ≡ ok (length pre + length (token_bytes t))
  unfolding skip_loop
  skip_loop-last e = rw (goes_on, skip_round-token pre post t good d 0 s e, not_negative) refl

  skip_loop-more :
      (d' : ℕ)
      → depth_after t.payload d ≡ some (suc d')
      → skip_loop (suc fuel) (src pre post t good) (length pre) d
        ≡ skip_loop fuel (src pre post t good) (length pre + length (token_bytes t)) (suc d')
  unfolding skip_loop
  skip_loop-more d' e =
      let more_depth : (suc d' == 0) ≡ false = ground arith in
      rw (goes_on, skip_round-token pre post t good d (suc d') s e, not_negative, more_depth) refl

-- From the depth `d` on, the loop ends behind the tokens.
skip_loop-tokens :
    (ts : List Token) (fuel d : ℕ) (pre post : Bytes)
    → Closes d ts
    → IsSlice (pre ++ (tokens_bytes ts ++ post))
    → length (tokens_bytes ts ++ post) < fuel
    → skip_loop fuel (pre ++ (tokens_bytes ts ++ post)) (length pre) d
      ≡ ok (length pre + length (tokens_bytes ts))
skip_loop-tokens ts zero d pre post closes s h = absurd (omega (arith, h))
skip_loop-tokens [] (suc fuel) d pre post closes s h = elim closes [ ]
skip_loop-tokens (t ∷ []) (suc fuel) d pre post (last good e) s h =
    let whole = append-nil (token_bytes t) in
    rw whole (skip_loop-last pre post t good fuel d (rw whole at s) e)
skip_loop-tokens (t ∷ ts) (suc fuel) d pre post (more {d' = d'} good e closes) s h =
    let rest : Bytes = tokens_bytes ts ++ post in
    let whole = append_assoc (token_bytes t) (tokens_bytes ts) post in
    let regroup : (pre ++ token_bytes t) ++ rest ≡ pre ++ (token_bytes t ++ rest) =
      append_assoc pre (token_bytes t) rest in
    let s' : IsSlice (pre ++ (token_bytes t ++ rest)) = rw whole at s in
    let left : length rest < fuel =
      omega (arith, h, token-nonempty t, length-append (token_bytes t) rest, ap length whole) in
    let later =
      skip_loop-tokens ts fuel (suc d') (pre ++ token_bytes t) post closes (rw (sym regroup) at s')
        left in
    rw whole (
      skip_loop-more pre rest t good fuel d s' d' e
      ∙ (rw (regroup, length-append pre (token_bytes t)) at later)
      ∙ ap (λ (n : ℕ). ok n) (omega (arith, length-append (token_bytes t) (tokens_bytes ts))))

-- `skip` of the tokens of a field and what follows them is the length of the tokens.
pub skip-tokens :
    (ts : List Token) (post : Bytes)
    → Closes 0 ts
    → IsSlice (tokens_bytes ts ++ post)
    → skip (tokens_bytes ts ++ post) ≡ ok (length (tokens_bytes ts))
unfolding skip
skip-tokens ts post closes s =
    skip_loop-tokens ts (length (tokens_bytes ts ++ post) + 1) 0 [] post closes s (omega arith)
    ∙ ap (λ (n : ℕ). ok n) (omega arith)
