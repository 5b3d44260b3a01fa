-- ===== src/Epoll/Examples/UnitTests.antt =====
-- The unit tests of epoll/src/event_context.rs, as functions into Bool, over the interest list of the
-- examples. `EventSet::IN` is 1 and `EventSet::OUT` is 4; descriptors, callbacks and boxes are numbers.
use vm_tools.Common.{
  ℕ, ◌+◌, ◌*◌, ◌/◌, ◌^◌, ◌>>=◌, ◌≡◌, refl, Bool, true, false, not, ◌&&◌, bit_and, Option, none,
  some, List, [], ◌∷◌, ◌==◌, if◌then◌else◌, Outcome, ok,
}
use vm_tools.Common.Maps.{get, insert, remove}
use vm_tools.Epoll.Notifier.{NotifierOperation, add_shared, delete, EventNotifier, new_notifier}
use vm_tools.Epoll.System.{EpollEvent, Epoll, failed, polled, ready, Waits}
use vm_tools.Epoll.Clock.{ClockState, default, enable, disable, get_virtual_clock}
use vm_tools.Epoll.Timers.{min_duration, run_timers, expired_nr}
use vm_tools.Epoll.Timing.{timers_min_duration}
use vm_tools.Epoll.Context.{
  Result, is_alive, tick, add_shared_event, park_then_insert, add_event, detach, unpark, rm_event,
  dispatch, update_events, gc_loop, gc_clean,
}
use vm_tools.Epoll.Context.Start.{new, init_tick}
use vm_tools.Epoll.Reading.{read_fd, kick_handler}
use vm_tools.Epoll.Handling.{Program, box_at, call_handlers, ask, handle_event, handle_events}
use vm_tools.Epoll.Loop.{
  fire_all, exit_by, run_due, finish_round, wait_events, poll_events, epoll_wait_manager,
  wait_for_timers, run,
}
use vm_tools.Epoll.Examples.InterestList.{Entries, io_error, entries}
use vm_tools.Epoll.Examples.Contexts.{Ctx}

-- An eventfd is ready to be written at once, and nobody writes to one here.
abbrev writable : Entries → List EpollEvent
writable [] = []
writable ((fd, ev) ∷ m) =
    let rest = writable m in
    if bit_and ev.events 4 == 4 then record { events = 4; data_ = ev.data_ } ∷ rest else rest

abbrev waits : Waits Entries ℕ
waits = record {
  now = λ w. w;
  ppoll = λ t k w. (polled, w + t);
  wait = λ t m k w. (ready (writable k), w);
  eintr = 4;
}

-- The notifier in its box, at ten times its descriptor.
abbrev event_of : NotifierOperation → ℕ → Option ℕ → ℕ → List ℕ → EventNotifier ℕ
event_of op fd parked events handlers = new_notifier op fd parked events handlers (fd * 10)

-- The callback 3 is that of `kick_event`; any other is that of `generate_handler` for its descriptor.
abbrev generate_handler : ℕ → ℕ → ℕ → ℕ → Option (List (EventNotifier ℕ)) × ℕ
generate_handler related_fd event fd w = (some (event_of add_shared related_fd none 1 [] ∷ []), w)

abbrev callbacks : Program ℕ ℕ
callbacks = record {
  call = λ h event fd w.
      if h == 3
      then kick_handler (λ fd' w'. (none, w')) event fd w
      else generate_handler h event fd w;
  fire = λ h w. w;
  should_exit = λ m w. false;
  cleanup = λ m w. (ok tt, w);
}

-- `assert!(x.is_ok())`, `unwrap()` of a check, and `EventStatus::Alive` of a notifier.
abbrev is_ok : {A : Type 0} → Result A → Bool
is_ok (ok a) = true
is_ok _ = false

abbrev holds : Option Bool → Bool
holds none = false
holds (some b) = b

abbrev fails : Option Bool → Bool
fails none = false
fails (some b) = not b

abbrev is_none : Option Bool → Bool
is_none none = true
is_none (some b) = false

abbrev alive_of : Option (EventNotifier ℕ) → Option Bool
alive_of none = none
alive_of (some notifier) = some (is_alive notifier.status)

abbrev check_existence : Ctx → ℕ → Option Bool
check_existence c fd = alive_of (get fd c.events)

-- A test on a new context, whose `kick_event` has the descriptor 3.
abbrev on_new : (Ctx → Bool) → Bool
on_new test = elim (new entries (some []) 0 (some 3) 3 30) [ ok c ↦ test c | _ ↦ false ]

-- `update_events(…).unwrap()`, then `run().unwrap()`, and what is asserted behind them.
abbrev updated_and_run : Ctx → List (EventNotifier ℕ) → (Ctx → Bool) → Bool
updated_and_run c notifiers asserted =
    let (r, c1) = update_events entries c notifiers in
    let (r', c2, _) = run entries waits callbacks c1 0 in is_ok r && (is_ok r' && asserted c2)

unfoldable basic_test : Bool
basic_test = on_new (λ mainloop.
    updated_and_run mainloop (event_of add_shared 5 none 4 (6 ∷ []) ∷ [])
      (λ c. holds (check_existence c 5) && holds (check_existence c 6)))

-- 5 is parked by 6, and registered again when 6 is removed.
unfoldable parked_event_test : Bool
parked_event_test = on_new (λ mainloop.
    updated_and_run mainloop
      (event_of add_shared 5 none 4 [] ∷ event_of add_shared 6 (some 5) 4 [] ∷ [])
      (λ c.
        let (r, c1) = update_events entries c (event_of delete 6 (some 5) 4 [] ∷ []) in
        (fails (check_existence c 5) && holds (check_existence c 6))
        && (is_ok r && (holds (check_existence c1 5) && is_none (check_existence c1 6)))))

-- The callback of the second notifier for 5 is called too.
unfoldable event_handler_test : Bool
event_handler_test = on_new (λ mainloop.
    updated_and_run mainloop
      (event_of add_shared 5 none 4 (6 ∷ []) ∷ event_of add_shared 5 none 4 (7 ∷ []) ∷ [])
      (λ c. holds (check_existence c 6) && holds (check_existence c 7)))

unfoldable error_operation_test : Bool
error_operation_test = on_new (λ mainloop.
    let (r, c1) = update_events entries mainloop (event_of delete 5 none 4 [] ∷ []) in
    let (r', c2) = update_events entries c1 (event_of add_shared 5 (some 6) 4 [] ∷ []) in
    let (r'', _) = update_events entries c2 (event_of delete 5 (some 6) 4 [] ∷ []) in
    not (is_ok r) && (not (is_ok r') && not (is_ok r'')))

unfoldable error_parked_operation_test : Bool
error_parked_operation_test = on_new (λ mainloop.
    let (r, c1) = update_events entries mainloop (event_of add_shared 5 none 4 [] ∷ []) in
    let (r', c2) = update_events entries c1 (event_of add_shared 6 (some 5) 4 [] ∷ []) in
    let (r'', _) = update_events entries c2 (event_of delete 5 none 4 [] ∷ []) in
    is_ok r && (is_ok r' && is_ok r''))

-- Every call on a descriptor that was closed comes back with EBADF.
abbrev closed : ℕ → Epoll Entries
closed fd = record entries {
  ctl = λ op fd' ev k. if fd' == fd then failed (io_error 9) else entries.ctl op fd' ev k;
}

abbrev create_event : Ctx → ℕ → Result (Unit {0}) × Ctx
create_event c fd = update_events entries c (event_of add_shared fd none 4 [] ∷ [])

-- The descriptor is closed at the end of `create_event`.
unfoldable fd_released_test : Bool
fd_released_test = on_new (λ mainloop.
    let (r, c1) = create_event mainloop 5 in
    let (r', _) = update_events (closed 5) c1 (event_of delete 5 none 4 [] ∷ []) in
    is_ok r && is_ok r')

abbrev all_hold : List Bool → Bool
all_hold [] = true
all_hold (b ∷ bs) = b && all_hold bs

tests_pass :
    all_hold (
      basic_test ∷ parked_event_test ∷ event_handler_test ∷ error_operation_test
      ∷ error_parked_operation_test ∷ fd_released_test ∷ [])
    ≡ true
unfolding basic_test parked_event_test event_handler_test error_operation_test
    error_parked_operation_test fd_released_test new init_tick add_event get park_then_insert
    new_notifier update_events dispatch insert remove run exit_by tick wait_for_timers
    epoll_wait_manager poll_events timers_min_duration add_shared_event detach gc_clean gc_loop
    rm_event unpark ask box_at call_handlers handle_event handle_events finish_round fire_all
    run_due wait_events kick_handler read_fd expired_nr min_duration run_timers
tests_pass = refl

-- `test_virtual_clock` of epoll/src/timer.rs, with sleeps that take just their time.
abbrev seconds : ℕ → ℕ
seconds n = n * 10 ^ 9

abbrev reads : ClockState → ℕ → ℕ → Bool
reads clock now expected = elim (get_virtual_clock clock now) [
  | ok time ↦ time / 10 ^ 9 == expected
  | _ ↦ false
]

unfoldable test_virtual_clock : Outcome (Unit {0}) Bool
test_virtual_clock = do
  started ← enable (default 0) 0
  stopped ← disable started (seconds 5)
  started' ← enable stopped (seconds 15)
  stopped' ← disable started' (seconds 20)
  started'' ← enable stopped' (seconds 30)
  ok (
      all_hold (
        reads started (seconds 5) 5
        ∷ reads stopped (seconds 15) 5
        ∷ reads started' (seconds 20) 10
        ∷ reads stopped' (seconds 30) 10
        ∷ reads started'' (seconds 35) 15
        ∷ []))

-- The second line is the one that fails.
test_virtual_clock_fails : test_virtual_clock ≡ ok false
unfolding test_virtual_clock default enable disable get_virtual_clock
test_virtual_clock_fails = refl
