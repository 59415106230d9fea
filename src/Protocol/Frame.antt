-- ===== src/Protocol/Frame.antt =====
-- pkg/protocol/frame.go. A reader is the bytes that are still to come; a writer is what was written
-- and the number of bytes after which the connection breaks. encoding/json is a parameter.
pub mod RoundTrip
use colnk.Common.{
  ℕ, ◌+◌, ◌*◌, ◌/◌, ◌%◌, ◌^◌, ◌<◌, ◌≡◌, Bytes, length, take, drop, [], ◌∷◌, ◌++◌, Option, none,
  some, ◌||◌, ltb, leb, nat_beq, if◌then◌else◌, or_error, done, failed, Io, ◌>>=◌, ◌>>◌, fail_if,
  lift, marshal_failed, decode_failed, write_failed, read_failed, header_too_large,
  invalid_header_length,
}
use colnk.Protocol.Types.{max_header_bytes}

pub record Json (A : Type 0) : Type 0 where
  pub marshal : A → Option Bytes
  pub unmarshal : Bytes → Option A

-- What the protocol relies on: a value that was marshalled has at least one byte and comes back, if it is
-- passed on unchanged, which encoding/json says of texts of valid UTF-8 only.
pub record JsonLaws {A : Type 0} (IsPassed : A → Type 0) (j : Json A) : Type 0 where
  pub nonempty : (v : A) (d : Bytes) → j.marshal v ≡ some d → 0 < length d
  pub unmarshal-marshal :
      (v : A) (d : Bytes) → IsPassed v → j.marshal v ≡ some d → j.unmarshal d ≡ some v

pub record Writer : Type 0 where
  pub written : Bytes
  pub breaks_after : ℕ

-- w.Write: a write past the break delivers the bytes that fit and fails.
unfoldable pub write_bytes : Bytes → Io Writer (Unit {0})
write_bytes d w =
    if leb (length w.written + length d) w.breaks_after
    then done tt (record w { written = w.written ++ d })
    else failed write_failed (record w { written = take w.breaks_after (w.written ++ d) })

-- io.ReadFull: exactly `n` bytes, or an error that has consumed the rest.
unfoldable pub read_full : ℕ → Io Bytes Bytes
read_full n r = if leb n (length r) then done (take n r) (drop n r) else failed read_failed []

-- binary.BigEndian.PutUint32
unfoldable pub put_uint32 : ℕ → Bytes
put_uint32 n = (n / 2 ^ 24 % 256) ∷ (n / 2 ^ 16 % 256) ∷ (n / 2 ^ 8 % 256) ∷ (n % 256) ∷ []

-- binary.BigEndian.Uint32, on the four bytes that were read.
unfoldable pub get_uint32 : Bytes → ℕ
get_uint32 (a ∷ b ∷ c ∷ d ∷ []) = a * 2 ^ 24 + b * 2 ^ 16 + c * 2 ^ 8 + d
get_uint32 _ = 0

module _ {A : Type 0} (j : Json A) where
  unfoldable pub write_json : A → Io Writer (Unit {0})
  write_json value = do
    header ← lift (or_error (j.marshal value) marshal_failed)
    fail_if (ltb max_header_bytes (length header)) header_too_large
    write_bytes (put_uint32 (length header % 2 ^ 32))
    write_bytes header

  unfoldable pub read_json : Io Bytes A
  read_json = do
    size ← read_full 4
    let n = get_uint32 size
    fail_if (nat_beq n 0 || ltb max_header_bytes n) (invalid_header_length n)
    header ← read_full n
    lift (or_error (j.unmarshal header) decode_failed)
