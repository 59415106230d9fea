-- ===== src/Protocol/Message/RoundTrip.antt =====
-- Writing and reading messages (pkg/protocol/message.go), one behind the other.
use colnk.Common.{
  append-nil, >>=-eq-done, lift-eq-done, fail_if-eq-done, ltb→le, ℕ, ◌≤◌, ◌≡◌, ◌++◌, Bytes, length,
  ltb, arith, done, lift, fail_if, payload_too_large, append_assoc, pos, [], ◌∷◌,
}
use colnk.Common.Utf8.{IsUtf8}
use colnk.Protocol.Texts.{IsUtf8Request, IsUtf8Response}
use colnk.Protocol.Types.{Request, Response, max_payload_bytes, max_response_payload_bytes}
use colnk.Protocol.Frame.{Json, JsonLaws, Writer, write_json}
use colnk.Protocol.Frame.RoundTrip.{
  frame, read_json-frame, write_json_done, write_bytes_done, read_full-append,
}
use colnk.Protocol.Payload.{Flate, FlateLaws, Encoded, encode_payload, write_payload, read_payload}
use colnk.Protocol.Payload.Bounds.{
  encode_payload_bounds, encode_payload-IsUtf8, decode_payload-encode_payload,
}
use colnk.Protocol.Message.{
  describe, describe_response, write_request, read_request, read_request_payload, write_response,
  read_response,
}

-- A payload that was written is appended to what was written before.
write_payload_done :
    (d : Bytes) (w w' : Writer) → write_payload d w ≡ done tt w' → w'.written ≡ w.written ++ d
unfolding write_payload
write_payload_done [] w w' h = ground (arith, append-nil w.written)
write_payload_done (c ∷ d) w w' h = ground (arith, write_bytes_done (c ∷ d) w w')

read_payload-append :
    (d rest : Bytes) (maximum : ℕ)
    → length d ≤ maximum
    → read_payload (pos (length d)) maximum (d ++ rest) ≡ done d rest
unfolding read_payload
read_payload-append [] rest maximum l = ground arith
read_payload-append (c ∷ d) rest maximum l = ground (arith, read_full-append (c ∷ d) rest)

module _ (f : Flate) (flate : FlateLaws f) (j : Json Request)
    (json : JsonLaws IsUtf8Request j) where
  -- Whatever stands behind it, a request whose texts are valid UTF-8 and that was written is read back
  -- with its payload, and its header names the length and the encoding of what was sent.
  pub read_request-write_request :
      (request : Request) (content : Bytes) (w w' : Writer)
      → IsUtf8Request request
      → write_request f j request content w ≡ done tt w'
      → (p : Encoded) × (sent : Bytes) × (w'.written ≡ w.written ++ sent)
        × ((rest : Bytes)
            → read_request f j (sent ++ rest) ≡ done (describe request p, content) rest)
  unfolding write_request read_request read_request_payload
  read_request-write_request request content w w' (k, o, a, b, t, _) h =
      let (_, w₁, small, h₁) =
        >>=-eq-done (fail_if (ltb max_payload_bytes (length content)) payload_too_large) _ w h in
      let (p, w₂, encoded, h₂) = >>=-eq-done (lift (encode_payload f content)) _ w₁ h₁ in
      let (_, w₃, header, h₃) = >>=-eq-done (write_json j (describe request p)) _ w₂ h₂ in
      let s = fail_if-eq-done (ltb max_payload_bytes (length content)) payload_too_large w small in
      let e = lift-eq-done (encode_payload f content) w₁ encoded in
      let l : length content ≤ max_payload_bytes = ltb→le _ _ s.0 in
      let l' : length p.payload ≤ max_payload_bytes =
        omega (arith, (encode_payload_bounds f content p e.0).0) in
      let (d, m, fits, out) = write_json_done j (describe request p) w₂ w₃ header in
      let body = write_payload_done p.payload w₃ w' h₃ in
      (
        p,
        frame d ++ p.payload,
        cc (s.1, e.1, out, body, append_assoc w.written (frame d) p.payload),
        λ rest. ground (
          arith,
          append_assoc (frame d) p.payload rest,
          read_json-frame IsUtf8Request j json (describe request p) d (p.payload ++ rest)
              (k, o, a, b, t, encode_payload-IsUtf8 f content p e.0) m fits,
          read_payload-append p.payload rest max_payload_bytes l',
          decode_payload-encode_payload f content p max_payload_bytes flate e.0 l,
        ),
      )

module _ (f : Flate) (flate : FlateLaws f) (j : Json Response)
    (json : JsonLaws IsUtf8Response j) where
  -- Whatever stands behind it, a response whose error text is valid UTF-8 and that was written is read
  -- back with its payload, and its header names the length and the encoding of what was sent.
  pub read_response-write_response :
      (response : Response) (content : Bytes) (w w' : Writer)
      → IsUtf8 response.error
      → write_response f j response content w ≡ done tt w'
      → (p : Encoded) × (sent : Bytes) × (w'.written ≡ w.written ++ sent)
        × ((rest : Bytes)
            → read_response f j (sent ++ rest) ≡ done (describe_response response p, content) rest)
  unfolding write_response read_response
  read_response-write_response response content w w' x h =
      let (_, w₁, small, h₁) =
        >>=-eq-done (fail_if (ltb max_response_payload_bytes (length content)) payload_too_large) _
          w h in
      let (p, w₂, encoded, h₂) = >>=-eq-done (lift (encode_payload f content)) _ w₁ h₁ in
      let (_, w₃, header, h₃) = >>=-eq-done (write_json j (describe_response response p)) _ w₂ h₂ in
      let s =
        fail_if-eq-done (ltb max_response_payload_bytes (length content)) payload_too_large w
          small in
      let e = lift-eq-done (encode_payload f content) w₁ encoded in
      let l : length content ≤ max_response_payload_bytes = ltb→le _ _ s.0 in
      let l' : length p.payload ≤ max_response_payload_bytes =
        omega (arith, (encode_payload_bounds f content p e.0).0) in
      let (d, m, fits, out) = write_json_done j (describe_response response p) w₂ w₃ header in
      let body = write_payload_done p.payload w₃ w' h₃ in
      (
        p,
        frame d ++ p.payload,
        cc (s.1, e.1, out, body, append_assoc w.written (frame d) p.payload),
        λ rest. ground (
          arith,
          append_assoc (frame d) p.payload rest,
          read_json-frame IsUtf8Response j json (describe_response response p) d (p.payload ++ rest)
              (x, encode_payload-IsUtf8 f content p e.0) m fits,
          read_payload-append p.payload rest max_response_payload_bytes l',
          decode_payload-encode_payload f content p max_response_payload_bytes flate e.0 l,
        ),
      )
