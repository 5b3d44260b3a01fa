-- ===== src/Epoll/Examples.antt =====
-- The theorems on the crate epoll at concrete clocks and timers.
mod InterestList
mod Contexts
mod Loops
mod EventLoops
mod UnitTests
use vm_tools.Common.{ℕ, ◌<◌, ◌≡◌, ◌↔◌, refl, arith, true, false, List, [], ◌∷◌, some, ok, ◌>>=◌}
use vm_tools.Epoll.Clock.{
  ClockState, default, get_virtual_clock, enable, disable, enable-reading, disable-enable-reading,
  disable-reading,
}
use vm_tools.Epoll.Timers.{Timer, add_timer, min_duration, expired_nr, run_timers}
use vm_tools.Epoll.Timers.Laws.{
  IsOrdered, add_timer-IsOrdered, run_timers_lem, run_timers-min_duration,
}

-- A running clock: enabled 30 after its offset.
abbrev running : ClockState
running = record { enabled = true; offset = 100; paused = 0; elapsed = 30 }

running_reads : get_virtual_clock running 150 ≡ ok 20
unfolding get_virtual_clock
running_reads = refl

disable-enable-reading_example :
    (disable running 150 >>= λ s. enable s 170 >>= λ s'. get_virtual_clock s' 175) ≡ ok 25
disable-enable-reading_example =
    disable-enable-reading running 150 170 175 20 refl (omega arith) (omega arith) (omega arith)
      running_reads

disable-reading_example :
    (disable running 150 ≡ ok (record running { paused = 20; enabled = false }))
    × ((disable running 150 >>= λ s. get_virtual_clock s 160) ≡ ok 30)
    × (((disable running 150 >>= λ s. get_virtual_clock s 160) ≡ ok 20) ↔ (running.elapsed ≡ 20))
disable-reading_example = disable-reading running 150 160 20 refl running_reads

-- Timers made at 100, with the delays 5, 20 and 40; a callback is its number.
abbrev soon : Timer ℕ
soon = record { id = 1; func = 11; expire_time = 105 }

abbrev later : Timer ℕ
later = record { id = 2; func = 12; expire_time = 120 }

abbrev last : Timer ℕ
last = record { id = 3; func = 13; expire_time = 140 }

abbrev timers : List (Timer ℕ)
timers = soon ∷ later ∷ last ∷ []

timers-IsOrdered : IsOrdered 0 timers
timers-IsOrdered = (omega arith, (omega arith, (omega arith, tt)))

abbrev added : Timer ℕ
added = record { id = 4; func = 14; expire_time = 120 }

add_timer-IsOrdered_example :
    (add_timer added timers ≡ soon ∷ later ∷ added ∷ last ∷ [])
    × IsOrdered 0 (add_timer added timers)
add_timer-IsOrdered_example = add_timer-IsOrdered added timers timers-IsOrdered

run_timers_lem_example : run_timers 120 timers ≡ (11 ∷ 12 ∷ [], last ∷ [])
run_timers_lem_example = run_timers_lem 120 timers timers-IsOrdered

last_wait : min_duration (run_timers 120 timers).1 120 ≡ some 20
unfolding min_duration run_timers expired_nr
last_wait = refl

run_timers-min_duration_example : 0 < 20
run_timers-min_duration_example = run_timers-min_duration 120 20 timers last_wait
