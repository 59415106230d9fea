-- ===== src/Client/Run.antt =====
-- pkg/client/run.go: sessions one after the other, with a delay between them. What becomes of each session
-- and of the context is given as a list; delays are nanoseconds.
use colnk.Common.{
  ℕ, ◌*◌, ◌^◌, ◌≤◌, ◌≡◌, min, Bool, true, false, List, [], ◌∷◌, Option, none, some, if◌then◌else◌,
  All, Error, arith, Bool-cases, Option-cases,
}
use colnk.Transport.Dial.{is_permanent}

-- time.Second
abbrev pub second : ℕ
second = 10 ^ 9

-- 30*time.Second
abbrev pub max_backoff : ℕ
max_backoff = 30 * second

-- One round of the loop: the context before the session, the results of runSession, the context behind it,
-- and whether waitForRetry ends by its timer.
pub record Round : Type 0 where
  pub done_before : Bool
  pub was_connected : Bool
  pub error : Option Error
  pub done_behind : Bool
  pub timer_first : Bool

-- How Run ends: with nil, with an error, or not yet.
pub data Ending : Type 0 where
  stopped : Ending
  gave_up : Error → Ending
  running : Ending

abbrev pub is_permanent_result : Option Error → Bool
unfolding is_permanent
is_permanent_result none = false
is_permanent_result (some e) = is_permanent e

-- `return err` with a permanent error.
abbrev pub give_up : Option Error → Ending
give_up none = stopped
give_up (some e) = gave_up e

-- The loop with its variable `backoff`: the delays that it waited for, and its end.
unfoldable pub run_loop : ℕ → List Round → List ℕ × Ending
unfolding is_permanent
run_loop backoff [] = ([], running)
run_loop backoff (r ∷ rs) =
    let delay = if r.was_connected then second else backoff in
    let (delays, end) = run_loop (min (delay * 2) max_backoff) rs in
    if r.done_before
    then ([], stopped)
    else if r.done_behind
    then ([], stopped)
    else if is_permanent_result r.error
    then ([], give_up r.error)
    else if r.timer_first
    then (delay ∷ delays, end)
    else ([], stopped)

unfoldable pub run : List Round → List ℕ × Ending
unfolding run_loop
run = run_loop second

abbrev pub IsDelay : ℕ → Type 0
IsDelay delay = (second ≤ delay) × (delay ≤ max_backoff)

if_both {ℓ} :
    {A : Type 0} (P : A → Type ℓ) (b : Bool) {x y : A} → P x → P y → P (if b then x else y)
if_both P true hx hy = hx
if_both P false hx hy = hy

delays-IsDelay :
    (backoff : ℕ) (rs : List Round) → IsDelay backoff → All IsDelay (run_loop backoff rs).0
unfolding run_loop
delays-IsDelay backoff [] h = tt
delays-IsDelay backoff (r ∷ rs) h =
    let delay = if r.was_connected then second else backoff in
    let d : IsDelay delay = ground (arith, Bool-cases r.was_connected) in
    let rest = delays-IsDelay (min (delay * 2) max_backoff) rs (omega arith, omega arith) in
    if_both P r.done_before tt (
      if_both P r.done_behind tt
        (if_both P (is_permanent_result r.error) tt (if_both P r.timer_first (d, rest) tt)))
  where
    P : List ℕ × Ending → Type 0
    P out = All IsDelay out.0

run_loop-gave_up :
    (backoff : ℕ) (rs : List Round) (e : Error)
    → (run_loop backoff rs).1 ≡ gave_up e
    → is_permanent e ≡ true
unfolding run_loop
run_loop-gave_up backoff [] e h = ground arith
run_loop-gave_up backoff (r ∷ rs) e h = ground (
  arith,
  Option-cases r.error,
  run_loop-gave_up (min ((if r.was_connected then second else backoff) * 2) max_backoff) rs e,
)

-- Between two sessions Run waits for at least a second and at most thirty.
pub run-IsDelay : (rs : List Round) → All IsDelay (run rs).0
unfolding run
run-IsDelay rs = delays-IsDelay second rs (omega arith, omega arith)

-- Run gives up only with a permanent error; from all others it goes on.
pub run-gave_up : (rs : List Round) (e : Error) → (run rs).1 ≡ gave_up e → is_permanent e ≡ true
unfolding run
run-gave_up rs e h = run_loop-gave_up second rs e h
