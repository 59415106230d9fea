-- ===== src/Protocol/Payload/Bounds.antt =====
-- Encoding and decoding of payloads (pkg/protocol/payload.go), one behind the other, and their sizes.
use colnk.Common.{
  ℕ, zero, suc, ◌-◌, ◌/◌, ◌<◌, ◌≤◌, ◌≡◌, refl, sym, ◌⊎◌, ltb, leb, Bool-cases, true, ℤ, pos, negsuc,
  Bytes, length, Option-cases, some, inl, inr, arith, ok,
}
use colnk.Common.Utf8.{IsUtf8, continues}
use colnk.Protocol.Payload.{
  as_is, payload_encoding_flate, min_compressible_payload, Flate, FlateLaws, Encoded,
  encode_payload, decode_payload,
}
use mathlib.Core.Path.{subst}

abbrev deflated : Bytes → Bytes → Encoded
deflated d c = record { payload = c; encoding = payload_encoding_flate; raw_length = length d }

module _ (f : Flate) where
  -- Encoding never makes a payload longer.
  pub encode_payload_bounds :
      (d : Bytes) (p : Encoded)
      → encode_payload f d ≡ ok p
      → (length p.payload ≤ length d) × (p.raw_length ≤ length d)
  unfolding encode_payload
  encode_payload_bounds d p h = ground arith

  -- What decoding accepts is within the maximum, if what came in was: a payload that would inflate
  -- to more is refused, whatever its header says.
  pub decode_payload_bounds :
      (d encoding out : Bytes) (raw_length : ℤ) (maximum : ℕ)
      → length d ≤ maximum
      → decode_payload f d encoding raw_length maximum ≡ ok out
      → length out ≤ maximum
  unfolding decode_payload
  decode_payload_bounds d encoding out (pos zero) maximum l h = ground arith
  decode_payload_bounds d encoding out (pos (suc n)) maximum l h = ground arith
  decode_payload_bounds d encoding out (negsuc k) maximum l h = ground arith

  -- An encoded payload is the payload itself or its compressed form.
  encode_payload_cases :
      (d : Bytes) (p : Encoded)
      → encode_payload f d ≡ ok p
      → (p ≡ as_is d)
        ⊎ ((c : Bytes) × (f.compress d ≡ some c) × (0 < length d) × (p ≡ deflated d c))
  unfolding encode_payload
  encode_payload_cases d p h = elim (Option-cases (f.compress d)) [
    | inl e ↦ inl (ground arith)
    | inr (c, e) ↦ elim (Bool-cases (ltb (length d) min_compressible_payload)) [
      | inl small ↦ inl (ground arith)
      | inr large ↦ elim (Bool-cases (leb (length d - length d / 16) (length c))) [
        | inl long ↦ inl (ground arith)
        | inr short ↦ inr (c, e, ground arith, ground arith)
      ]
    ]
  ]

  -- The name of an encoding is plain ASCII.
  pub encode_payload-IsUtf8 :
      (d : Bytes) (p : Encoded) → encode_payload f d ≡ ok p → IsUtf8 p.encoding
  unfolding continues
  encode_payload-IsUtf8 d p h = elim (encode_payload_cases d p h) [
    | inl e ↦ rw e refl
    | inr (c, _, _, e) ↦ rw e refl
  ]

  decode_payload-deflated :
      (d c : Bytes) (maximum : ℕ)
      → f.inflate c ≡ (d, true)
      → 0 < length d
      → length d ≤ maximum
      → decode_payload f c payload_encoding_flate (pos (length d)) maximum ≡ ok d
  unfolding decode_payload
  decode_payload-deflated d c maximum e g l = ground arith

  -- Decoding undoes encoding.
  pub decode_payload-encode_payload :
      (d : Bytes) (p : Encoded) (maximum : ℕ)
      → FlateLaws f
      → encode_payload f d ≡ ok p
      → length d ≤ maximum
      → decode_payload f p.payload p.encoding (pos p.raw_length) maximum ≡ ok d
  unfolding decode_payload
  decode_payload-encode_payload d p maximum laws h l =
      let Decodes : Encoded → Type 0 =
        λ q. decode_payload f q.payload q.encoding (pos q.raw_length) maximum ≡ ok d in
      elim (encode_payload_cases d p h) [
        | inl raw ↦ subst Decodes (sym raw) refl
        | inr (c, e, g, flate) ↦
            subst Decodes (sym flate)
              (decode_payload-deflated d c maximum (laws.inflate-compress d c e) g l)
      ]
