-- ===== src/Config/Address.antt =====
-- pkg/configvalidate/address.go: the addresses that a configuration may hold.
use colnk.Common.{
  ℕ, ◌<◌, ◌≤◌, ◌^◌, ◌≡◌, ◌⊎◌, inl, inr, Bytes, codes, List, [], ◌∷◌, Bool, true, false, not, ◌&&◌,
  ◌||◌, ltb, leb, nat_beq, if◌then◌else◌, is_empty, length, all, All, trim_suffix, none, some,
  Result, ok, err, message, arith, Option-cases,
}
use colnk.Common.Net.{Net, split_host_port, parse_uint16, parse_uint16-lt}
use colnk.Common.Paths.{split_on}

abbrev pub is_alpha_numeric : ℕ → Bool
is_alpha_numeric c =
    leb b'a' c && leb c b'z' || (leb b'A' c && leb c b'Z' || leb b'0' c && leb c b'9')

-- `label[len(label)-1]` of the label `c ∷ s`.
unfoldable pub last_byte : ℕ → Bytes → ℕ
last_byte c [] = c
last_byte c (d ∷ s) = last_byte d s

-- `label[1:len(label)-1]` of the label `c ∷ s`.
unfoldable pub inner_bytes : Bytes → Bytes
inner_bytes [] = []
inner_bytes (c ∷ []) = []
inner_bytes (c ∷ d ∷ s) = c ∷ inner_bytes (d ∷ s)

abbrev pub is_label_byte : ℕ → Bool
is_label_byte c = is_alpha_numeric c || nat_beq c b'-'

-- The body of the loop over the labels.
unfoldable pub is_valid_label : Bytes → Bool
unfolding last_byte inner_bytes all
is_valid_label [] = false
is_valid_label (c ∷ s) =
    leb (length (c ∷ s)) 63
    && (is_alpha_numeric c && is_alpha_numeric (last_byte c s))
    && all is_label_byte (inner_bytes s)

unfoldable pub labels : Bytes → List Bytes
unfolding split_on
labels = split_on (λ c. nat_beq c b'.')

unfoldable pub valid_hostname : Bytes → Bool
unfolding trim_suffix labels is_valid_label all
valid_hostname text =
    let host = trim_suffix text (codes ".") in
    if is_empty host || ltb 253 (length host) then false else all is_valid_label (labels host)

abbrev must_be_host_port : Result (Unit {0})
must_be_host_port = err (message (codes "must be host:port"))

abbrev bad_port : Result (Unit {0})
bad_port = err (message (codes "port must be between 1 and 65535"))

abbrev pub is_ip : {Network : Type 0} → Net Network → Bytes → Bool
is_ip net host = elim (net.parse_ip host) [ none ↦ false | some _ ↦ true ]

module _ {Network : Type 0} (net : Net Network) where
  -- The check of the host, behind that of the port.
  unfoldable pub validate_host : Bytes → Result (Unit {0})
  unfolding valid_hostname
  validate_host host =
      if not (is_empty host) && (not (is_ip net host) && not (valid_hostname host))
      then err (message (codes "host is invalid"))
      else ok tt

  unfoldable pub validate_port : Bytes → Bytes → Result (Unit {0})
  unfolding parse_uint16 validate_host
  validate_port host port_text = elim (parse_uint16 port_text) [
    | none ↦ bad_port
    | some port ↦ if nat_beq port 0 then bad_port else validate_host host
  ]

  unfoldable pub validate_address : Bytes → Bool → Result (Unit {0})
  unfolding split_host_port validate_port
  validate_address value allow_empty_host = elim (split_host_port value) [
    | none ↦ must_be_host_port
    | some (host, port_text) ↦
        if not allow_empty_host && is_empty host
        then must_be_host_port
        else validate_port host port_text
  ]

-- Letters and digits, labels and host names, by what they are.
abbrev pub IsAlphaNumeric : ℕ → Type 0
IsAlphaNumeric c =
    ((b'a' ≤ c) × (c ≤ b'z')) ⊎ (((b'A' ≤ c) × (c ≤ b'Z')) ⊎ ((b'0' ≤ c) × (c ≤ b'9')))

abbrev pub IsLabel : Bytes → Type 0
IsLabel label =
    (0 < length label) × (length label ≤ 63) × All (λ b. IsAlphaNumeric b ⊎ (b ≡ b'-')) label

abbrev pub IsHostName : Bytes → Type 0
IsHostName text =
    (length (trim_suffix text (codes ".")) ≤ 253)
    × All IsLabel (labels (trim_suffix text (codes ".")))

pub is_alpha_numeric-IsAlphaNumeric : (c : ℕ) → is_alpha_numeric c ≡ true → IsAlphaNumeric c
is_alpha_numeric-IsAlphaNumeric c h = ground (arith, h)

label_byte : (c : ℕ) → is_label_byte c ≡ true → IsAlphaNumeric c ⊎ (c ≡ b'-')
label_byte c h = ground (arith, h)

label_bytes :
    (s : Bytes) → All (λ b. is_label_byte b ≡ true) s → All (λ b. IsAlphaNumeric b ⊎ (b ≡ b'-')) s
label_bytes [] h = tt
label_bytes (c ∷ s) (x, h) = (label_byte c x, label_bytes s h)

last_inner_bytes :
    (c : ℕ) (s : Bytes)
    → is_label_byte c ≡ true
    → is_alpha_numeric (last_byte c s) ≡ true
    → all is_label_byte (inner_bytes s) ≡ true
    → All (λ b. is_label_byte b ≡ true) (c ∷ s)
unfolding last_byte inner_bytes all
last_inner_bytes c [] h l i = (h, tt)
last_inner_bytes c (d ∷ []) h l i = (h, (ground arith, tt))
last_inner_bytes c (d ∷ e ∷ s) h l i =
    (h, last_inner_bytes d (e ∷ s) (ground arith) l (ground arith))

is_valid_label_lem : (label : Bytes) → is_valid_label label ≡ true → IsLabel label
unfolding is_valid_label
is_valid_label_lem [] h = ground arith
is_valid_label_lem (c ∷ s) h = (
  omega arith,
  ground arith,
  label_bytes (c ∷ s) (last_inner_bytes c s (ground arith) (ground arith) (ground arith)),
)

all-IsLabel : (ls : List Bytes) → all is_valid_label ls ≡ true → All IsLabel ls
unfolding all
all-IsLabel [] h = tt
all-IsLabel (l ∷ ls) h = (is_valid_label_lem l (ground arith), all-IsLabel ls (ground arith))

-- A host name that passes has at most 253 bytes, but for a dot at its end, and consists of labels of 1 to
-- 63 letters, digits and hyphens.
valid_hostname_lem : (text : Bytes) → valid_hostname text ≡ true → IsHostName text
unfolding valid_hostname
valid_hostname_lem text h = (ground arith, all-IsLabel _ (ground arith))

module _ {Network : Type 0} (net : Net Network) where
  validate_host_cases :
      (host : Bytes)
      → validate_host net host ≡ ok tt
      → (is_empty host ≡ true) ⊎ ((is_ip net host ≡ true) ⊎ (valid_hostname host ≡ true))
  unfolding validate_host
  validate_host_cases host h = ground arith

  validate_port_lem :
      (host port_text : Bytes)
      → validate_port net host port_text ≡ ok tt
      → (port : ℕ) × (parse_uint16 port_text ≡ some port)
        × (0 < port)
        × (validate_host net host ≡ ok tt)
  unfolding validate_port
  validate_port_lem host port_text h = elim (Option-cases (parse_uint16 port_text)) [
    | inl e ↦ ground (arith, e)
    | inr (port, e) ↦ (port, e, ground (arith, e), ground (arith, e))
  ]

  -- A host and a port from 1 to 65535; the host is empty where that is allowed, an IP address or a host name.
  abbrev pub IsAddress : Bytes → Bool → Type 0
  IsAddress value allow_empty_host =
      (host : Bytes) × (port_text : Bytes) × (port : ℕ) × (split_host_port value
        ≡ some (host, port_text))
      × (parse_uint16 port_text ≡ some port)
      × (0 < port)
      × (port < 2 ^ 16)
      × ((is_empty host ≡ true) × (allow_empty_host ≡ true)
          ⊎ ((is_ip net host ≡ true) ⊎ IsHostName host))

  host_kinds :
      (host : Bytes) (allow : Bool)
      → (is_empty host ≡ true) × (allow ≡ true)
        ⊎ ((is_ip net host ≡ true) ⊎ (valid_hostname host ≡ true))
      → (is_empty host ≡ true) × (allow ≡ true) ⊎ ((is_ip net host ≡ true) ⊎ IsHostName host)
  host_kinds host allow (inl e) = inl e
  host_kinds host allow (inr (inl i)) = inr (inl i)
  host_kinds host allow (inr (inr v)) = inr (inr (valid_hostname_lem host v))

  -- An address that ValidateAddress accepts is one.
  pub validate_address_lem :
      (value : Bytes) (allow_empty_host : Bool)
      → validate_address net value allow_empty_host ≡ ok tt
      → IsAddress value allow_empty_host
  unfolding validate_address
  validate_address_lem value allow h = elim (Option-cases (split_host_port value)) [
    | inl e ↦ ground (arith, e)
    | inr ((host, port_text), e) ↦
        let (port, p, pos, v) = validate_port_lem host port_text (ground (arith, e)) in
        (
          host,
          port_text,
          port,
          e,
          p,
          pos,
          parse_uint16-lt port_text port p,
          host_kinds host allow (ground (arith, e, validate_host_cases host v)),
        )
  ]
