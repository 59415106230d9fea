-- ===== src/Provider/NetworkHandler/Limits.antt =====
-- Connections of the client under way, as an interleaving of their beginnings and ends
-- (pkg/provider/network_handler.go).
use colnk.Common.{ℕ, ◌+◌, ◌≤◌, ◌≡◌, Bytes, Bool, true, ltb, arith, Bool-cases}
use colnk.Common.Net.{Net}
use colnk.Provider.NetworkPolicy.{ParsedPolicy, allow_tcp}
use colnk.Provider.NetworkHandler.{
  Slots, release, refused, proxied, unanswered, handle_tcp, dial_target,
}

-- The connections that are proxied, and the slots.
pub record Connections : Type 0 where
  pub opened : ℕ
  pub slots : Slots

module _ {Network : Type 0} (net : Net Network) (policy : ParsedPolicy Network) where
  -- A request is handled, or a proxied connection ends, whose handler then releases its slot.
  pub data Step : Connections → Connections → Type 0 where
    request_refused :
        (c : Connections) (dial : Bytes → Bool) (answers : Bool) (target : Bytes) (code : ℕ)
        (slots' : Slots)
        → handle_tcp net policy dial answers target c.slots ≡ (refused code, slots')
        → Step c (record c { slots = slots' })
    request_unanswered :
        (c : Connections) (dial : Bytes → Bool) (answers : Bool) (target : Bytes) (slots' : Slots)
        → handle_tcp net policy dial answers target c.slots ≡ (unanswered, slots')
        → Step c (record c { slots = slots' })
    request_proxied :
        (c : Connections) (dial : Bytes → Bool) (answers : Bool) (target to : Bytes)
        (slots' : Slots)
        → handle_tcp net policy dial answers target c.slots ≡ (proxied to, slots')
        → Step c (record { opened = c.opened + 1; slots = slots' })
    connection_ended :
        (c : Connections) (n : ℕ)
        → c.opened ≡ n + 1
        → Step c (record { opened = n; slots = release c.slots })

  pub data Steps : Connections → Connections → Type 0 where
    here : (c : Connections) → Steps c c
    after : (c d e : Connections) → Step c d → Steps d e → Steps c e

  handle_tcp-refused :
      (dial : Bytes → Bool) (answers : Bool) (target : Bytes) (s s' : Slots) (code : ℕ)
      → handle_tcp net policy dial answers target s ≡ (refused code, s')
      → (s'.used ≡ s.used) × (s'.capacity ≡ s.capacity)
  unfolding handle_tcp
  handle_tcp-refused dial answers target s s' code h = ground (
    arith,
    Bool-cases (allow_tcp net policy target),
    Bool-cases (ltb s.used s.capacity),
    Bool-cases (dial (dial_target target)),
    Bool-cases answers,
  )

  handle_tcp-unanswered :
      (dial : Bytes → Bool) (answers : Bool) (target : Bytes) (s s' : Slots)
      → handle_tcp net policy dial answers target s ≡ (unanswered, s')
      → (s'.used ≡ s.used) × (s'.capacity ≡ s.capacity)
  unfolding handle_tcp
  handle_tcp-unanswered dial answers target s s' h = ground (
    arith,
    Bool-cases (allow_tcp net policy target),
    Bool-cases (ltb s.used s.capacity),
    Bool-cases (dial (dial_target target)),
    Bool-cases answers,
  )

  -- A connection is proxied only to where the policy allows, and takes a free slot.
  pub handle_tcp-proxied :
      (dial : Bytes → Bool) (answers : Bool) (target to : Bytes) (s s' : Slots)
      → handle_tcp net policy dial answers target s ≡ (proxied to, s')
      → (allow_tcp net policy target ≡ true)
        × (to ≡ dial_target target)
        × (s'.used ≡ s.used + 1)
        × (s'.used ≤ s.capacity)
        × (s'.capacity ≡ s.capacity)
  unfolding handle_tcp
  handle_tcp-proxied dial answers target to s s' h = ground (
    arith,
    Bool-cases (allow_tcp net policy target),
    Bool-cases (ltb s.used s.capacity),
    Bool-cases (dial (dial_target target)),
    Bool-cases answers,
  )

  -- Every proxied connection holds one slot, and no more slots are in use than there are.
  abbrev pub IsCounted : Connections → Type 0
  IsCounted c = (c.slots.used ≡ c.opened) × (c.slots.used ≤ c.slots.capacity)

  Step-IsCounted :
      (c d : Connections)
      → Step c d
      → IsCounted c
      → IsCounted d × (d.slots.capacity ≡ c.slots.capacity)
  Step-IsCounted _ _ (request_refused c dial answers target code s h) i =
      ground (arith, handle_tcp-refused dial answers target c.slots s code h)
  Step-IsCounted _ _ (request_unanswered c dial answers target s h) i =
      ground (arith, handle_tcp-unanswered dial answers target c.slots s h)
  Step-IsCounted _ _ (request_proxied c dial answers target to s h) i =
      ground (arith, handle_tcp-proxied dial answers target to c.slots s h)
  Step-IsCounted _ _ (connection_ended c n h) i = ground arith

  -- However requests and ends of connections follow each other, there are never more proxied
  -- connections than slots.
  pub Steps-opened : (c d : Connections) → Steps c d → IsCounted c → d.opened ≤ c.slots.capacity
  Steps-opened _ _ (here c) i = ground arith
  Steps-opened _ _ (after c d e s ss) i =
      ground (arith, Step-IsCounted c d s i, Steps-opened d e ss)
