-- ===== src/Wire/Varint.antt =====
-- Varints: `encodeVarintTx`, `sovTx` and the loops that read one, in tx.pb.go. The other .pb.go files
-- have the same code under other names. A uint64 is a number below 2 ^ 64.
pub mod Encode
pub mod Decode
use Prim.Native.Nat.{bit_and, bit_or}
use chain_rice.Common.{
  ℕ, zero, suc, ◌+◌, ◌-◌, ◌*◌, ◌/◌, ◌%◌, ◌^◌, ◌<◌, [], ◌∷◌, ltb, leb, ◌==◌, if◌then◌else◌, Bytes,
  length, set, is_empty,
}
use chain_rice.Common.Result.{Error, message, Result, ok, err, panic, ◌>>=◌}

abbrev pub IsU64 : ℕ → Type 0
IsU64 v = v < 2 ^ 64

abbrev pub err_int_overflow : Error
err_int_overflow = message "proto: integer overflow" []

abbrev pub err_unexpected_eof : Error
err_unexpected_eof = message "unexpected EOF" []

abbrev pub index_out_of_range : Error
index_out_of_range = message "runtime error: index out of range" []

abbrev pub slice_out_of_range : Error
slice_out_of_range = message "runtime error: slice bounds out of range" []

-- No Go value: a loop of the model has used up its rounds.
abbrev pub out_of_fuel : Error
out_of_fuel = message "out of fuel" []

-- `math/bits.Len64`
unfoldable pub len64_loop : ℕ → ℕ → ℕ
len64_loop zero x = 0
len64_loop (suc fuel) x = let n = len64_loop fuel (x / 2) in if x == 0 then 0 else suc n

abbrev pub len64 : ℕ → ℕ
len64 x = len64_loop 64 x

unfoldable pub sov : ℕ → ℕ
sov x = (len64 (bit_or x 1) + 6) / 7

-- `i -= n`, where the code goes on to index the buffer: below 0 it panics.
unfoldable pub index_sub : ℕ → ℕ → Result ℕ
index_sub i n = if ltb i n then panic index_out_of_range else ok (i - n)

-- `dAtA[i] = x`
unfoldable pub put_byte : Bytes → ℕ → ℕ → Result Bytes
put_byte buf i x = if ltb i (length buf) then ok (set buf i x) else panic index_out_of_range

-- `for v >= 1<<7 { ... }` and the last byte
unfoldable pub put_loop : ℕ → Bytes → ℕ → ℕ → Result Bytes
unfolding put_byte
put_loop zero buf offset v = panic out_of_fuel
put_loop (suc fuel) buf offset v = if ltb v 128 then put_byte buf offset (v % 256) else (do
  buf' ← put_byte buf offset (bit_or (bit_and v 0x7f) 0x80 % 256)
  put_loop fuel buf' (offset + 1) (v / 128))

-- A uint64 has at most ten groups of seven bits.
unfoldable pub encode_varint : Bytes → ℕ → ℕ → Result (Bytes × ℕ)
unfolding index_sub
encode_varint buf offset v = do
  base ← index_sub offset (sov v)
  buf' ← put_loop 10 buf base v
  ok (buf', base)

-- `wire |= uint64(b&0x7F) << shift`
abbrev pub add_group : ℕ → ℕ → ℕ → ℕ
add_group acc b shift = bit_or acc (bit_and b 0x7f * 2 ^ shift % 2 ^ 64)

-- One of the loops `for shift := uint(0); ; shift += 7`. The list is `dAtA[iNdEx:]`, empty where
-- `iNdEx >= l`; the read of `dAtA[iNdEx]` there, which the test of it avoids, is a panic.
unfoldable pub read_loop : Bytes → ℕ → ℕ → Result (ℕ × Bytes)
read_loop [] shift acc =
    if leb 64 shift
    then err err_int_overflow
    else if is_empty []
    then err err_unexpected_eof
    else panic index_out_of_range
read_loop (b ∷ rest) shift acc =
    let more = read_loop rest (shift + 7) (add_group acc b shift) in
    if leb 64 shift
    then err err_int_overflow
    else if ltb b 0x80
    then ok (add_group acc b shift, rest)
    else more

unfoldable pub read_varint : Bytes → Result (ℕ × Bytes)
read_varint rest = read_loop rest 0 0
