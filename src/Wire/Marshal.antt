-- ===== src/Wire/Marshal.antt =====
-- `Marshal` and `MarshalTo`, which each message has in the same words, over its `Size` and its
-- `MarshalToSizedBuffer`.
use mathlib.Core.List.{append-nil}
use chain_rice.Common.{
  ℕ, ◌≡◌, ap, [], ◌++◌, Bytes, length, take, drop, ltb, if◌then◌else◌, take-append,
}
use chain_rice.Common.Result.{Result, ok, panic, ◌>>=◌}
use chain_rice.Wire.Buffer.{zeros, front}
use chain_rice.Wire.Varint.{slice_out_of_range}

-- `MarshalToSizedBuffer`: the buffer afterwards, and the number of bytes written at its end.
abbrev pub Writer : Type 0 → Type 0
Writer M = M → Bytes → Result (Bytes × ℕ)

module _ {M : Type 0} (size : M → ℕ) (to_sized_buffer : Writer M) where
  unfoldable pub marshal : M → Result Bytes
  marshal m = do (buf, n) ← to_sized_buffer m (zeros (size m)); ok (take n buf)

  -- The buffer has no room beyond its length.
  unfoldable pub marshal_to : M → Bytes → Result (Bytes × ℕ)
  marshal_to m buf = if ltb (length buf) (size m) then panic slice_out_of_range else (do
    (written, n) ← to_sized_buffer m (take (size m) buf)
    ok (written ++ drop (size m) buf, n))

  -- A writer that fills a buffer of the right size gives `marshal` its bytes.
  pub marshal-front :
      (m : M) (bytes : Bytes)
      → size m ≡ length bytes
      → to_sized_buffer m (front (length bytes) []).0 ≡ ok (bytes, length bytes)
      → marshal m ≡ ok bytes
  unfolding marshal
  marshal-front m bytes e h =
      let whole : take (length bytes) bytes ≡ bytes =
        rw (append-nil bytes) at (take-append bytes []) in
      rw (e, rw (append-nil (zeros (length bytes))) at h) (ap ok whole)
