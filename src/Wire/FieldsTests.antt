-- ===== src/Wire/FieldsTests.antt =====
-- A message with an unknown group and a repeated authority, and the theorem on its format.
use chain_rice.Common.{◌≡◌, refl, List, [], ◌∷◌, arith}
use chain_rice.Common.Result.{ok}
use chain_rice.Wire.Varint.Encode.{groups}
use chain_rice.Wire.Tokens.{Token, number, start, stop, Closes, last, more}
use chain_rice.Wire.Fields.{field_of, none_left, one_more}
use chain_rice.Wire.Tx.{msg_unmarshal}
use chain_rice.Wire.Tx.RoundTrip.{zero_msg}
use chain_rice.Wire.Tx.Fields.{
  Part, authority, params, unknown, parts_bytes, AreParts, msg_unmarshal-parts_bytes,
}

-- A group with the number 3, in which a field with the number 1 has the value 300.
abbrev group_3 : List Token
group_3 =
    record { tag = 27; payload = start }
    ∷ record { tag = 8; payload = number 300 }
    ∷ record { tag = 28; payload = stop }
    ∷ []

group_3-Closes : Closes 0 group_3
group_3-Closes =
    more (record { small = omega arith; type = refl; sound = tt }) refl
      (more (record { small = omega arith; type = refl; sound = omega arith }) refl
        (last (record { small = omega arith; type = refl; sound = tt }) refl))

abbrev parts : List Part
parts = authority (7 ∷ []) ∷ unknown group_3 ∷ params (group_3 ∷ []) ∷ authority (8 ∷ 9 ∷ []) ∷ []

parts-AreParts : AreParts parts
parts-AreParts = (
  tt,
  (
    field_of group_3-Closes refl refl,
    (one_more (field_of group_3-Closes refl refl) none_left, (tt, tt)),
  ),
)

bytes_of_parts :
    parts_bytes parts
    ≡ 10 ∷ 1 ∷ 7 ∷ 27 ∷ 8 ∷ 172 ∷ 2 ∷ 28 ∷ 18 ∷ 5 ∷ 27 ∷ 8 ∷ 172 ∷ 2 ∷ 28 ∷ 10 ∷ 2 ∷ 8 ∷ 9 ∷ []
unfolding groups
bytes_of_parts = refl

msg_unmarshal-parts_bytes_example :
    msg_unmarshal (parts_bytes parts) zero_msg
    ≡ ok (record { authority = 8 ∷ 9 ∷ []; params = record {} })
unfolding groups
msg_unmarshal-parts_bytes_example =
    msg_unmarshal-parts_bytes parts zero_msg parts-AreParts (omega arith)
