-- ===== src/Protocol/Payload.antt =====
-- pkg/protocol/payload.go. compress/flate is a parameter: `compress` is what the writer makes of a
-- whole payload (`none` if it reports an error), `inflate` what the reader yields before it stops, with
-- `true` if it stopped at the end of a well-formed stream.
pub mod Bounds
use colnk.Common.{
  ℕ, zero, suc, ◌+◌, ◌-◌, ◌*◌, ◌/◌, ◌^◌, ◌≡◌, ℤ, pos, negsuc, Bytes, codes, length, take, [],
  Option, some, Bool, true, ◌||◌, ltb, leb, nat_beq, not, is_empty, bytes_beq, if◌then◌else◌,
  Result, ok, err, bind, or_error, Io, done, failed, compress_failed, decompress_failed,
  raw_length_mismatch, payload_needs_encoding, unsupported_encoding, invalid_raw_length,
  invalid_payload_length,
}
use colnk.Protocol.Frame.{Writer, write_bytes, read_full}

pub record Flate : Type 0 where
  pub compress : Bytes → Option Bytes
  pub inflate : Bytes → Bytes × Bool

-- What the protocol relies on: a compressed payload is decompressed to itself.
pub record FlateLaws (f : Flate) : Type 0 where
  pub inflate-compress : (d c : Bytes) → f.compress d ≡ some c → f.inflate c ≡ (d, true)

abbrev pub payload_encoding_flate : Bytes
payload_encoding_flate = codes "flate"

-- 4 << 10
abbrev pub min_compressible_payload : ℕ
min_compressible_payload = 4 * 2 ^ 10

-- The results of `encodePayload`.
pub record Encoded : Type 0 where
  pub payload : Bytes
  pub encoding : Bytes
  pub raw_length : ℕ

abbrev pub as_is : Bytes → Encoded
as_is d = record { payload = d; encoding = []; raw_length = 0 }

-- io.Copy from io.LimitReader(reader, limit): the reader's error counts only if the limit is not
-- reached first.
unfoldable pub copy_limited : ℕ → Bytes × Bool → Result Bytes
copy_limited limit (out, clean) =
    if leb limit (length out)
    then ok (take limit out)
    else if clean
    then ok out
    else err decompress_failed

-- `if rawLength != 0`
unfoldable pub decode_raw : Bytes → ℤ → Result Bytes
decode_raw d (pos zero) = ok d
decode_raw d _ = err payload_needs_encoding

module _ (f : Flate) where
  unfoldable pub encode_payload : Bytes → Result Encoded
  encode_payload d =
      if ltb (length d) min_compressible_payload
      then ok (as_is d)
      else bind (or_error (f.compress d) compress_failed) (λ c.
        if leb (length d - length d / 16) (length c)
        then ok (as_is d)
        else ok (record { payload = c; encoding = payload_encoding_flate; raw_length = length d }))

  -- The part of `decodePayload` behind the check of the raw length.
  unfoldable pub inflate_exactly : Bytes → ℕ → Result Bytes
  unfolding copy_limited
  inflate_exactly d n =
      bind (copy_limited (n + 1) (f.inflate d))
        (λ out. if nat_beq (length out) n then ok out else err raw_length_mismatch)

  -- `if rawLength <= 0 || rawLength > maximum`
  unfoldable pub decode_flate : Bytes → ℤ → ℕ → Result Bytes
  unfolding inflate_exactly
  decode_flate d (negsuc k) maximum = err (invalid_raw_length (negsuc k))
  decode_flate d (pos n) maximum =
      if nat_beq n 0 || ltb maximum n then err (invalid_raw_length (pos n)) else inflate_exactly d n

  unfoldable pub decode_payload : Bytes → Bytes → ℤ → ℕ → Result Bytes
  unfolding decode_raw decode_flate
  decode_payload d encoding raw_length maximum =
      if is_empty encoding
      then decode_raw d raw_length
      else if not (bytes_beq encoding payload_encoding_flate)
      then err unsupported_encoding
      else decode_flate d raw_length maximum

unfoldable pub write_payload : Bytes → Io Writer (Unit {0})
write_payload d w = if nat_beq (length d) 0 then done tt w else write_bytes d w

unfoldable pub read_payload : ℤ → ℕ → Io Bytes Bytes
read_payload (negsuc k) maximum r = failed (invalid_payload_length (negsuc k)) r
read_payload (pos n) maximum r =
    if ltb maximum n
    then failed (invalid_payload_length (pos n)) r
    else if nat_beq n 0
    then done [] r
    else read_full n r
