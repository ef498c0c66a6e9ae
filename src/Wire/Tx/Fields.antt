-- ===== src/Wire/Tx/Fields.antt =====
-- The encoding of `MsgUpdateParams` as a format: any sequence of its fields and of unknown ones.
use mathlib.Core.List.{append_assoc}
use chain_rice.Common.{
  ℕ, ◌^◌, ◌≤◌, ◌<◌, ◌≡◌, refl, ap, ◌∙◌, str, Bool, false, ◌||◌, List, [], ◌∷◌, ◌++◌, Bytes, length,
  length-append, ◌==◌, arith,
}
use chain_rice.Common.Result.{ok}
use chain_rice.Chainrice.Types.{MsgUpdateParams}
use chain_rice.Wire.Varint.Encode.{varint}
use chain_rice.Wire.Skip.{IsSlice}
use chain_rice.Wire.Tokens.{Token, tokens_bytes}
use chain_rice.Wire.Params.{no_field, no_field-IsTame, params_unmarshal}
use chain_rice.Wire.Unmarshal.{unmarshal_step, unmarshal}
use chain_rice.Wire.Unmarshal.Steps.{read_payload-append, unmarshal_step_known, run, run-nil}
use chain_rice.Wire.Fields.{
  IsField, Knows, unmarshal_step-unknown, run-round, field-nonempty, fields_bytes, AreFields,
  unmarshal-unknown,
}
use chain_rice.Wire.Tx.{msg_field, msg_authority_field, msg_params_field, msg_unmarshal}
use chain_rice.Wire.Tx.RoundTrip.{msg_field-IsTame}

-- A field of the message: an authority, a `Params` with fields that are all unknown to it, since it
-- has none, or a field that the message does not have.
pub data Part : Type 0 where
  authority : Bytes → Part
  params : List (List Token) → Part
  unknown : List Token → Part

abbrev pub part_bytes : Part → Bytes
part_bytes (authority a) = 10 ∷ (varint (length a) ++ a)
part_bytes (params fs) = 18 ∷ (varint (length (fields_bytes fs)) ++ fields_bytes fs)
part_bytes (unknown ts) = tokens_bytes ts

abbrev pub parts_bytes : List Part → Bytes
parts_bytes [] = []
parts_bytes (p ∷ ps) = part_bytes p ++ parts_bytes ps

abbrev pub is_known : ℕ → Bool
is_known n = n == 1 || n == 2

abbrev pub none_known : ℕ → Bool
none_known n = false

abbrev pub IsPart : Part → Type 0
IsPart (authority a) = Unit
IsPart (params fs) = AreFields none_known fs
IsPart (unknown ts) = IsField is_known ts

abbrev pub AreParts : List Part → Type 0
AreParts [] = Unit
AreParts (p ∷ ps) = IsPart p × AreParts ps

-- What a sequence of fields means: the last authority counts.
abbrev pub with_part : MsgUpdateParams → Part → MsgUpdateParams
with_part m (authority a) = record m { authority = a }
with_part m (params fs) = m
with_part m (unknown ts) = m

abbrev pub with_parts : MsgUpdateParams → List Part → MsgUpdateParams
with_parts m [] = m
with_parts m (p ∷ ps) = with_parts (with_part m p) ps

no_field-Knows : {M : Type 0} → Knows {M = M} no_field none_known
no_field-Knows = record { passes = λ l n t r m h. refl }

msg_field-Knows : Knows msg_field is_known
unfolding msg_field
msg_field-Knows = record { passes = λ l n t r m h. ground (arith, h) }

part-nonempty : (p : Part) (rest : Bytes) → IsPart p → 1 ≤ length (part_bytes p ++ rest)
part-nonempty (authority a) rest x = omega arith
part-nonempty (params fs) rest x = omega arith
part-nonempty (unknown ts) rest x = field-nonempty is_known ts rest x

part_step :
    (l : ℕ) (p : Part) (rest : Bytes) (m : MsgUpdateParams)
    → IsPart p
    → l < 2 ^ 63
    → length (part_bytes p ++ rest) ≤ l
    → unmarshal_step (str "MsgUpdateParams") msg_field l (part_bytes p ++ rest) m
      ≡ ok (with_part m p, rest)
unfolding msg_field
part_step l (authority a) rest m x hl le =
    let whole = append_assoc (varint (length a)) a rest in
    let small : IsSlice a = omega (
      arith,
      hl,
      le,
      ap length whole,
      length-append (varint (length a)) (a ++ rest),
      length-append a rest,
    ) in
    rw whole (
      unmarshal_step_known (str "MsgUpdateParams") msg_field l 10 (varint (length a) ++ (a ++ rest))
        m (record m { authority = a }) rest (omega arith) (omega arith) (omega arith)
        (unfold msg_authority_field in rw (read_payload-append l a rest hl small)))
part_step l (params fs) rest m x hl le =
    let p : Bytes = fields_bytes fs in
    let whole = append_assoc (varint (length p)) p rest in
    let small : IsSlice p = omega (
      arith,
      hl,
      le,
      ap length whole,
      length-append (varint (length p)) (p ++ rest),
      length-append p rest,
    ) in
    let inner : params_unmarshal p m.params ≡ ok m.params =
      unfold params_unmarshal in
      unmarshal-unknown (str "Params") no_field no_field-IsTame none_known no_field-Knows fs
        m.params x small in
    rw whole (
      unmarshal_step_known (str "MsgUpdateParams") msg_field l 18 (varint (length p) ++ (p ++ rest))
        m m rest (omega arith) (omega arith) (omega arith)
        (unfold msg_params_field in rw (read_payload-append l p rest hl small, inner)))
part_step l (unknown ts) rest m x hl le =
    unmarshal_step-unknown (str "MsgUpdateParams") msg_field msg_field-IsTame is_known
      msg_field-Knows l ts rest m x hl le

run-parts :
    (l : ℕ) (ps : List Part) (m : MsgUpdateParams)
    → AreParts ps
    → l < 2 ^ 63
    → length (parts_bytes ps) ≤ l
    → run (str "MsgUpdateParams") msg_field msg_field-IsTame l (parts_bytes ps) m
      ≡ ok (with_parts m ps)
run-parts l [] m x hl le = run-nil (str "MsgUpdateParams") msg_field msg_field-IsTame l m
run-parts l (p ∷ ps) m (x, xs) hl le =
    run-round (str "MsgUpdateParams") msg_field msg_field-IsTame is_known msg_field-Knows l
      (part_bytes p ++ parts_bytes ps) (parts_bytes ps) m (with_part m p) (omega (arith, hl, le))
      (part-nonempty p (parts_bytes ps) x) (part_step l p (parts_bytes ps) m x hl le)
    ∙ run-parts l ps (with_part m p) xs hl
        (omega (arith, le, length-append (part_bytes p) (parts_bytes ps)))

-- `msg_unmarshal` implements the format: on the bytes of any sequence of fields, in any order, repeated
-- or left out, with unknown fields of every wire type and nested groups among them, also inside the
-- params, it ends with the message that they mean, in which the last authority counts and unknown
-- fields do not. The sequence is one whose length is an `int`.
pub msg_unmarshal-parts_bytes :
    (ps : List Part) (m : MsgUpdateParams)
    → AreParts ps
    → IsSlice (parts_bytes ps)
    → msg_unmarshal (parts_bytes ps) m ≡ ok (with_parts m ps)
unfolding msg_unmarshal unmarshal
msg_unmarshal-parts_bytes ps m xs s = run-parts (length (parts_bytes ps)) ps m xs s (omega arith)
