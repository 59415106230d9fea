-- ===== src/Tests/ClientTests.antt =====
-- The client's loop at concrete inputs.
use colnk.Common.{◌≡◌, ◌*◌, refl, [], ◌∷◌, some, true, false, All, dial_failed, rejected, permanent}
use colnk.Transport.Dial.{is_permanent}
use colnk.Client.Run.{Round, run, second, IsDelay, gave_up, run-IsDelay}

abbrev round : Round
round = record {
  done_before = false;
  was_connected = false;
  error = some dial_failed;
  done_behind = false;
  timer_first = true;
}

abbrev last : Round
last = record round { error = some (permanent rejected) }

delays :
    run (round ∷ round ∷ record round { was_connected = true } ∷ round ∷ last ∷ [])
    ≡ (second ∷ second * 2 ∷ second ∷ second * 2 ∷ [], gave_up (permanent rejected))
unfolding run is_permanent
delays = refl

run-IsDelay_example : All IsDelay (run (round ∷ round ∷ last ∷ [])).0
run-IsDelay_example = run-IsDelay (round ∷ round ∷ last ∷ [])

ended :
    (run (round ∷ round ∷ record round { was_connected = true } ∷ round ∷ last ∷ [])).1
    ≡ gave_up (permanent rejected)
unfolding run is_permanent
ended = refl
