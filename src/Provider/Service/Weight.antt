-- ===== src/Provider/Service/Weight.antt =====
-- The weight of a file request and its payload (pkg/provider/audit.go, filesystem_handler.go).
use colnk.Common.{
  ℕ, zero, suc, ◌+◌, ◌≤◌, ◌≡◌, refl, ◌⊎◌, inl, inr, Bytes, length, ℤ, pos, negsuc, ok, done,
  >>=-eq-done, lift-eq-done, arith, Bool-cases, length-take, ltb, leb_ℤ, max_ℤ, true,
}
use colnk.Protocol.Types.{Request, max_payload_bytes}
use colnk.Protocol.Frame.{Json, read_full}
use colnk.Protocol.Payload.{Flate, decode_payload, read_payload}
use colnk.Protocol.Message.{read_request_payload}
use colnk.Provider.Service.{
  FileBegin, weigh, refused, incoming_weight, file_request_weight, begin_file, weighed,
  max_in_flight_file_bytes,
}
use colnk.Provider.NetworkHandler.{Slots}

-- A payload that was read has the length that its header names.
length-read_payload :
    (n : ℤ) (maximum : ℕ) (r content rest : Bytes)
    → read_payload n maximum r ≡ done content rest
    → n ≡ pos (length content)
unfolding read_payload read_full
length-read_payload (pos n) maximum r content rest h = ground (arith, length-take n r)
length-read_payload (negsuc n) maximum r content rest h = ground arith

-- The weight is that of the incoming payload and of a largest response.
weight_lem :
    (incoming : ℤ) (w : ℕ)
    → incoming_weight incoming ≡ pos w
    → (n : ℕ) × (incoming ≡ pos n) × (n ≤ max_payload_bytes) × (w ≡ n + max_payload_bytes)
unfolding incoming_weight
weight_lem (pos n) w h = (n, refl, ground arith, ground arith)
weight_lem (negsuc n) w h = ground arith

max_ℤ-le :
    (a b : ℤ) (n : ℕ) → max_ℤ a b ≡ pos n → (leb_ℤ a (pos n) ≡ true) × (leb_ℤ b (pos n) ≡ true)
max_ℤ-le (pos a) (pos b) n h = ground arith
max_ℤ-le (pos a) (negsuc b) n h = ground arith
max_ℤ-le (negsuc a) (pos b) n h = ground arith
max_ℤ-le (negsuc a) (negsuc b) n h = ground arith

weighed_lem : (z : ℤ) (w : ℕ) → weigh z ≡ weighed w → (z ≡ pos w) × (w ≤ max_in_flight_file_bytes)
weighed_lem (pos n) w h = ground arith
weighed_lem (negsuc n) w h = ground arith

FileBegin-cases : (b : FileBegin) → ((code : ℕ) × (b ≡ refused code)) ⊎ ((w : ℕ) × (b ≡ weighed w))
FileBegin-cases (refused code) = inl (code, refl)
FileBegin-cases (weighed w) = inr (w, refl)

begin_file-weighed :
    (request : Request) (slots slots' : Slots) (w : ℕ)
    → begin_file request slots ≡ (weighed w, slots')
    → weigh (file_request_weight request) ≡ weighed w
unfolding begin_file
begin_file-weighed request slots slots' w h =
    elim (FileBegin-cases (weigh (file_request_weight request))) [
      | inl (code, e) ↦ ground (arith, e, Bool-cases (ltb slots.used slots.capacity))
      | inr (v, e) ↦ ground (arith, e, Bool-cases (ltb slots.used slots.capacity))
    ]

module _ (f : Flate) (j : Json Request) where
  -- A decoded payload has the raw length, or is as it came.
  length-decode_payload :
      (d encoding out : Bytes) (n : ℕ) (raw_length : ℤ) (maximum : ℕ)
      → length d ≤ n
      → leb_ℤ raw_length (pos n) ≡ true
      → decode_payload f d encoding raw_length maximum ≡ ok out
      → length out ≤ n
  unfolding decode_payload
  length-decode_payload d encoding out n (pos zero) maximum l m h = ground arith
  length-decode_payload d encoding out n (pos (suc k)) maximum l m h = ground arith
  length-decode_payload d encoding out n (negsuc k) maximum l m h = ground arith

  -- A file request that is let in reads at most as many bytes as its weight leaves beside a response of
  -- the largest size, and its weight is within the budget.
  pub read_request_payload-weight :
      (request : Request) (slots slots' : Slots) (w : ℕ) (r content rest : Bytes)
      → begin_file request slots ≡ (weighed w, slots')
      → read_request_payload f j request r ≡ done content rest
      → (length content + max_payload_bytes ≤ w) × (w ≤ max_in_flight_file_bytes)
  unfolding read_request_payload file_request_weight
  read_request_payload-weight request slots slots' w r content rest h g =
      let (z, budget) =
        weighed_lem (file_request_weight request) w (begin_file-weighed request slots slots' w h) in
      let (n, e, small, sum) = weight_lem (max_ℤ request.data_length request.raw_data_length) w z in
      let (dl, rl) = max_ℤ-le request.data_length request.raw_data_length n e in
      let (raw, s, read, decoded) =
        >>=-eq-done (read_payload request.data_length max_payload_bytes) _ r g in
      let (d, _) =
        lift-eq-done
          (decode_payload f raw request.data_encoding request.raw_data_length max_payload_bytes) s
          decoded in
      let len = length-read_payload request.data_length max_payload_bytes r raw s read in
      let le : length raw ≤ n = ground (arith, len) in
      let out =
        length-decode_payload raw request.data_encoding content n request.raw_data_length
          max_payload_bytes le rl d in
      (omega (arith, out), budget)
