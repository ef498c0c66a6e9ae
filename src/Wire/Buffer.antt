-- ===== src/Wire/Buffer.antt =====
-- The steps by which `MarshalToSizedBuffer` fills a buffer from its end.
use chain_rice.Common.{
  ℕ, zero, suc, ◌+◌, ◌≡◌, ap, ◌∷◌, ◌++◌, Bytes, length, replicate, length-replicate, overwrite,
  overwrite-append, arith,
}
use mathlib.Core.List.{append_assoc}
use chain_rice.Common.Result.{Result, ok, ◌>>=◌}
use chain_rice.Wire.Varint.{IsU64, index_sub, put_byte, encode_varint}
use chain_rice.Wire.Varint.Encode.{put_byte-append, varint, encode_varint-append}

-- The buffer and the index `i`, from which on it is written.
abbrev pub Cursor : Type 0
Cursor = Bytes × ℕ

-- `i--; dAtA[i] = x`
unfoldable pub push_byte : ℕ → Cursor → Result Cursor
push_byte x (buf, i) = do i' ← index_sub i 1; buf' ← put_byte buf i' x; ok (buf', i')

-- `i -= len(s); copy(dAtA[i:], s)`
unfoldable pub push_bytes : Bytes → Cursor → Result Cursor
push_bytes s (buf, i) = do i' ← index_sub i (length s); ok (overwrite buf i' s, i')

-- `i = encodeVarintTx(dAtA, i, v)`
unfoldable pub push_varint : ℕ → Cursor → Result Cursor
push_varint v (buf, i) = encode_varint buf i v

-- `make([]byte, n)`
abbrev pub zeros : ℕ → Bytes
zeros n = replicate n 0

-- A buffer with `i` bytes to be written in front of `post`.
abbrev pub front : ℕ → Bytes → Cursor
front i post = (zeros i ++ post, i)

pub length-zeros : (n : ℕ) → length (zeros n) ≡ n
length-zeros n = length-replicate n 0

zeros-add : (a b : ℕ) → zeros (a + b) ≡ zeros a ++ zeros b
zeros-add zero b = ap zeros (omega arith)
zeros-add (suc a) b =
    let e : suc a + b ≡ suc (a + b) = omega arith in
    rw e (ap (λ (t : Bytes). 0 ∷ t) (zeros-add a b))

zeros_gap : (i n : ℕ) (post : Bytes) → zeros (i + n) ++ post ≡ zeros i ++ (zeros n ++ post)
zeros_gap i n post = rw zeros-add (append_assoc (zeros i) (zeros n) post)

pub index_sub-add : (i n : ℕ) → index_sub (i + n) n ≡ ok i
unfolding index_sub
index_sub-add i n = ground arith

pub push_byte-front :
    (x i : ℕ) (post : Bytes) → push_byte x (front (i + 1) post) ≡ ok (front i (x ∷ post))
unfolding push_byte
push_byte-front x i post =
    let put : put_byte (zeros i ++ (0 ∷ post)) i x ≡ ok (zeros i ++ (x ∷ post)) =
      rw length-zeros at (put_byte-append (zeros i) 0 post x) in
    rw (index_sub-add i 1, zeros_gap i 1 post, put)

pub push_bytes-front :
    (s : Bytes) (i : ℕ) (post : Bytes)
    → push_bytes s (front (i + length s) post) ≡ ok (front i (s ++ post))
unfolding push_bytes
push_bytes-front s i post =
    let copied : overwrite (zeros i ++ (zeros (length s) ++ post)) i s ≡ zeros i ++ (s ++ post) =
      rw (length-zeros i) at
        (overwrite-append (zeros i) (zeros (length s)) post s (length-zeros (length s))) in
    rw (index_sub-add i (length s), zeros_gap i (length s) post, copied)

pub push_varint-front :
    (v i : ℕ) (post : Bytes)
    → IsU64 v
    → push_varint v (front (i + length (varint v)) post) ≡ ok (front i (varint v ++ post))
unfolding push_varint
push_varint-front v i post h =
    let n : ℕ = length (varint v) in
    let written : encode_varint (zeros i ++ (zeros n ++ post)) (i + n) v
        ≡ ok (zeros i ++ (varint v ++ post), i) =
      rw (length-zeros i, length-zeros n) at
        (encode_varint-append v (zeros i) (zeros n) post h (length-zeros n)) in
    rw (zeros_gap i n post) written

pub index_sub-zero : (i : ℕ) → index_sub i 0 ≡ ok i
unfolding index_sub
index_sub-zero i = ground arith
