-- ===== src/Protocol/Frame/RoundTrip.antt =====
-- What WriteJSON puts on a connection and what ReadJSON makes of it (pkg/protocol/frame.go).
use colnk.Common.{
  >>=-eq-done, lift-eq-done, fail_if-eq-done, or_error-eq-ok, marshal_failed, or_error, lift,
  fail_if, ltb, ltb→le, ℕ, ◌+◌, ◌%◌, ◌^◌, ◌≤◌, ◌<◌, ◌≡◌, refl, Bytes, length, ◌++◌, some, arith,
  done, failed, header_too_large, take-append, drop-append, length-append, append_assoc,
}
use colnk.Protocol.Types.{max_header_bytes}
use colnk.Protocol.Frame.{
  Json, JsonLaws, Writer, write_bytes, read_full, put_uint32, get_uint32, write_json, read_json,
}

get_uint32-put_uint32 : (n : ℕ) → n < 2 ^ 32 → get_uint32 (put_uint32 n) ≡ n
unfolding get_uint32 put_uint32
get_uint32-put_uint32 n h = omega arith

-- A read of the bytes that stand in front takes those bytes.
pub read_full-append : (d rest : Bytes) → read_full (length d) (d ++ rest) ≡ done d rest
unfolding read_full
read_full-append d rest =
    ground (arith, take-append d rest, drop-append d rest, length-append d rest)

read_full_size :
    (n : ℕ) (rest : Bytes) → read_full 4 (put_uint32 n ++ rest) ≡ done (put_uint32 n) rest
unfolding put_uint32
read_full_size n rest = read_full-append (put_uint32 n) rest

length-put_uint32 : (n : ℕ) → length (put_uint32 n) ≡ 4
unfolding put_uint32
length-put_uint32 n = refl

length-frame : (n : ℕ) (d : Bytes) → length (put_uint32 n ++ d) ≡ 4 + length d
length-frame n d = omega (arith, length-append (put_uint32 n) d, length-put_uint32 n)

-- A write that fits is appended.
pub write_bytes_fits :
    (d : Bytes) (w : Writer)
    → length w.written + length d ≤ w.breaks_after
    → write_bytes d w ≡ done tt (record w { written = w.written ++ d })
unfolding write_bytes
write_bytes_fits d w h = ground arith

-- A frame: the length in four bytes, then the header.
abbrev pub frame : Bytes → Bytes
frame d = put_uint32 (length d % 2 ^ 32) ++ d

module _ {A : Type 0} (IsPassed : A → Type 0) (j : Json A) (laws : JsonLaws IsPassed j) where
  -- A frame that was marshalled from a value that JSON passes on is read back as that value, and the bytes behind the
  -- frame are left for the next read.
  pub read_json-frame :
      (v : A) (d rest : Bytes)
      → IsPassed v
      → j.marshal v ≡ some d
      → length d ≤ max_header_bytes
      → read_json j (frame d ++ rest) ≡ done v rest
  unfolding read_json
  read_json-frame v d rest q m h =
      let n = length d % 2 ^ 32 in
      let e : n ≡ length d = omega arith in
      ground (
        arith,
        append_assoc (put_uint32 n) d rest,
        read_full_size n (d ++ rest),
        get_uint32-put_uint32 n,
        read_full-append d rest,
        e,
        laws.nonempty v d m,
        laws.unmarshal-marshal v d q m,
      )

  -- A value that is too large for a header is refused, and nothing is written.
  pub write_json_too_large :
      (v : A) (d : Bytes) (w : Writer)
      → j.marshal v ≡ some d
      → max_header_bytes < length d
      → write_json j v w ≡ failed header_too_large w
  unfolding write_json
  write_json_too_large v d w m h = ground arith

  -- With room for the whole frame the writer gets exactly the frame.
  pub write_json-frame :
      (v : A) (d : Bytes) (w : Writer)
      → j.marshal v ≡ some d
      → length d ≤ max_header_bytes
      → length w.written + length (frame d) ≤ w.breaks_after
      → write_json j v w ≡ done tt (record w { written = w.written ++ frame d })
  unfolding write_json
  write_json-frame v d w m h room =
      let n = length d % 2 ^ 32 in
      let size : length (put_uint32 n ++ d) ≡ 4 + length d = length-frame n d in
      ground (
        arith,
        m,
        append_assoc w.written (put_uint32 n) d,
        length-append w.written (put_uint32 n),
        length-put_uint32 n,
        write_bytes_fits (put_uint32 n) w,
        write_bytes_fits d (record w { written = w.written ++ put_uint32 n }),
      )

-- A write that succeeds appends its bytes.
pub write_bytes_done :
    (d : Bytes) (w w' : Writer) → write_bytes d w ≡ done tt w' → w'.written ≡ w.written ++ d
unfolding write_bytes
write_bytes_done d w w' h = ground arith

module _ {A : Type 0} (j : Json A) where
  -- A header that was written is a frame of the marshalled value, within the limit.
  pub write_json_done :
      (v : A) (w w' : Writer)
      → write_json j v w ≡ done tt w'
      → (d : Bytes) × (j.marshal v ≡ some d)
        × (length d ≤ max_header_bytes)
        × (w'.written ≡ w.written ++ frame d)
  unfolding write_json
  write_json_done v w w' h =
      let (d, w₁, marshalled, h₁) =
        >>=-eq-done (lift (or_error (j.marshal v) marshal_failed)) _ w h in
      let (_, w₂, small, h₂) =
        >>=-eq-done (fail_if (ltb max_header_bytes (length d)) header_too_large) _ w₁ h₁ in
      let (_, w₃, size, h₃) = >>=-eq-done (write_bytes (put_uint32 (length d % 2 ^ 32))) _ w₂ h₂ in
      let m = lift-eq-done (or_error (j.marshal v) marshal_failed) w marshalled in
      let s = fail_if-eq-done (ltb max_header_bytes (length d)) header_too_large w₁ small in
      (
        d,
        or_error-eq-ok (j.marshal v) marshal_failed m.0,
        ltb→le _ _ s.0,
        cc (
          m.1,
          s.1,
          write_bytes_done _ w₂ w₃ size,
          write_bytes_done d w₃ w' h₃,
          append_assoc w.written (put_uint32 (length d % 2 ^ 32)) d,
        ),
      )
