-- ===== src/Epoll/Examples/Loops.antt =====
-- The theorems on the loop at a concrete program, and on its flags at a concrete run.
use vm_tools.Common.{
  ℕ, ◌+◌, ◌<◌, ◌≡◌, ◌⊎◌, ◌↔◌, refl, subst, arith, inl, true, false, Option, none, some, List, [],
  ◌∷◌, leb, ok,
}
use vm_tools.Common.Maps.{get, insert, remove}
use vm_tools.Epoll.Notifier.{park, new_notifier, add_shared, add_exclusion}
use vm_tools.UtilErrors.{IoError}
use vm_tools.Epoll.System.{
  ctl_add, ctl_modify, ctl_delete, EpollEvent, failed, polled, ready, Waits,
}
use vm_tools.Epoll.Context.{dispatch, tick, add_event, park_then_insert, update_events}
use vm_tools.Epoll.Context.Boxes.{Kept, HasNumbers}
use vm_tools.Epoll.Handling.{Program, box_at, call_handlers, ask, handle_event, handle_events}
use vm_tools.Epoll.Handling.Safety.{AllRegistered}
use vm_tools.Epoll.Handling.Calls.{Handles, handle_events-Handles}
use vm_tools.Epoll.Loop.{epoll_wait_manager, run, io_thread_run}
use vm_tools.Epoll.Loop.Outcomes.{
  Reports, DoneOrFailed, epoll_wait_manager-DoneOrFailed, EndsBy, run-Ends,
}
use vm_tools.Epoll.Loop.Stays.{AsksPlain}
use vm_tools.Epoll.EventLoop.Rounds.{loop_run, thread_loop}
use vm_tools.Epoll.EventLoop.Safety.{CleansUp, RunsOrEnds, loop_run-RunsOrEnds}
use vm_tools.Epoll.Wake.{
  waiting, Shared, first, Reach, start, later, looks, waits as wait_step, calls, ticks, clear,
  read_timers, mark, not_kicked, add_timer, tick_stores, tick_reads_true, tick_writes,
}
use vm_tools.Epoll.Wake.Invariant.{no_lost_timer}
use vm_tools.Epoll.Examples.InterestList.{
  entries-IsInterestList, Entries, add_to, modify_in, delete_from, entries, lookup,
}
use vm_tools.Epoll.Examples.Contexts.{Ctx, two, two-IsSynced, notifier}

-- Every failure of the association list has its number.
add_number :
    (o : Option EpollEvent) (fd : ℕ) (ev : EpollEvent) (k : Entries) (x : IoError)
    → add_to o fd ev k ≡ failed x
    → (n : ℕ) × (x.raw_os_error ≡ some n)
add_number none fd ev k x h = absurd (ground arith)
add_number (some old) fd ev k x h = (17, ground arith)

modify_number :
    (o : Option EpollEvent) (fd : ℕ) (ev : EpollEvent) (k : Entries) (x : IoError)
    → modify_in o fd ev k ≡ failed x
    → (n : ℕ) × (x.raw_os_error ≡ some n)
modify_number none fd ev k x h = (2, ground arith)
modify_number (some old) fd ev k x h = absurd (ground arith)

delete_number :
    (o : Option EpollEvent) (fd : ℕ) (k : Entries) (x : IoError)
    → delete_from o fd k ≡ failed x
    → (n : ℕ) × (x.raw_os_error ≡ some n)
delete_number none fd k x h = (2, ground arith)
delete_number (some old) fd k x h = absurd (ground arith)

entries-HasNumbers : HasNumbers entries
entries-HasNumbers ctl_add fd ev k x h = add_number (get fd k) fd ev k x h
entries-HasNumbers ctl_modify fd ev k x h = modify_number (get fd k) fd ev k x h
entries-HasNumbers ctl_delete fd ev k x h = delete_number (get fd k) fd k x h

-- The wait reports the latest entry, if there is one. The world is the time.
abbrev latest : Entries → List EpollEvent
latest [] = []
latest ((fd, ev) ∷ m) = ev ∷ []

abbrev waits : Waits Entries ℕ
waits = record {
  now = λ w. w;
  ppoll = λ t k w. (polled, w + t);
  wait = λ t m k w. (ready (latest k), w);
  eintr = 4;
}

latest-AllRegistered : (k : Entries) → AllRegistered (lookup k) (latest k)
unfolding get
latest-AllRegistered [] = tt
latest-AllRegistered ((fd, ev) ∷ m) = ((fd, ev, ground arith, refl), tt)

ready_same : (evs evs' : List EpollEvent) → ready evs ≡ ready evs' → evs ≡ evs'
ready_same evs evs' h = ground arith

waits-Reports : Reports waits lookup
waits-Reports t m k w evs h =
    subst (AllRegistered (lookup k)) (ready_same (latest k) evs h) (latest-AllRegistered k)

-- A callback adds a notifier for the descriptor that it is made with, and an object `n` that is a
-- manager ends the loop from the time `n` on.
abbrev program : Program ℕ ℕ
program = record {
  call = λ h ev fd w. (some (new_notifier add_shared h none 1 [] (h + 1000) ∷ []), w);
  fire = λ h w. w + 1;
  should_exit = λ m w. leb m w;
  cleanup = λ m w. (ok tt, w);
}

two-Kept : Kept 100 two
unfolding update_events dispatch add_event park_then_insert get insert remove tick
two-Kept = inl (5, record (notifier add_exclusion 5 none 100) { status = park }, refl, refl)

-- A callback adds its number to the world, and asks for a notifier for 7.
abbrev counting : Program ℕ ℕ
counting = record program {
  call = λ h ev fd w. (some (new_notifier add_shared 7 none 1 [] 700 ∷ []), w + h);
}

six_Kept : Kept 200 two
unfolding update_events dispatch add_event park_then_insert get insert remove tick
six_Kept = inl (6, notifier add_exclusion 6 (some 5) 200, refl, refl)

-- An event for 6, which is alive and whose callback is called, and one for 5, which is parked.
abbrev both_events : List EpollEvent
both_events = record { events = 1; data_ = 200 } ∷ record { events = 1; data_ = 100 } ∷ []

handle_events-Handles_example :
    ((handle_events entries counting two 60 both_events).0 ≡ ok tt)
    × Handles entries counting two 60 both_events
        (handle_events entries counting two 60 both_events).1
        (handle_events entries counting two 60 both_events).2
handle_events-Handles_example =
    handle_events-Handles entries counting both_events two 60 entries-HasNumbers
      (six_Kept, (two-Kept, tt))

six_called : (handle_events entries counting two 60 both_events).2 ≡ 66
unfolding update_events dispatch add_event park_then_insert get insert remove tick handle_events
    handle_event box_at ask call_handlers new_notifier
six_called = refl

epoll_wait_manager-DoneOrFailed_example :
    DoneOrFailed (epoll_wait_manager entries waits program two 60 (some 5))
epoll_wait_manager-DoneOrFailed_example =
    epoll_wait_manager-DoneOrFailed entries waits program lookup entries-HasNumbers waits-Reports
      two 60 (some 5) two-IsSynced

-- With the manager that ends the loop from the time 50 on.
abbrev managed : Ctx
managed = record two { manager = some 50 }

run-Ends_example :
    (((run entries waits program managed 60).0 ≡ ok false) ↔ EndsBy program managed.manager 60)
    × (((io_thread_run entries waits program managed 60).0 ≡ ok false)
        ↔ EndsBy program managed.manager 60)
run-Ends_example =
    run-Ends entries waits program lookup entries-HasNumbers waits-Reports managed 60 two-IsSynced

program-AsksPlain : AsksPlain program
unfolding new_notifier
program-AsksPlain = λ h event fd w. ((refl, inl refl), tt)

program-CleansUp : CleansUp program
program-CleansUp = λ m w. inl refl

-- Three rounds, on a main context that ends at once and on a thread that does not.
loop_run-RunsOrEnds_example :
    RunsOrEnds
      (loop_run entries waits program 3
        (some (record { main_loop = managed; io_thread = [] }))
        60).0
    × RunsOrEnds (thread_loop entries waits program 3 two 60).0
loop_run-RunsOrEnds_example =
    loop_run-RunsOrEnds entries waits program lookup entries-IsInterestList entries-HasNumbers
      waits-Reports program-AsksPlain program-CleansUp 3
      (record { main_loop = managed; io_thread = [] }) two 60 two-IsSynced two-IsSynced

-- The loop waits, having seen no timer; another thread adds one and ticks.
abbrev kicked_once : Shared
kicked_once = record first { kicked = true; kick_me = true; kick_event = 1; timers = 1 }

kicked_once-Reach : Reach kicked_once (waiting 0 true true)
kicked_once-Reach =
    later
      (later
        (later
          (later
            (later
              (later (later (later start (looks clear)) (looks (read_timers true)))
                (wait_step mark))
              (wait_step (not_kicked refl)))
            (calls add_timer))
          (ticks (tick_stores refl)))
        (ticks (tick_reads_true refl refl)))
      (ticks (tick_writes refl))

no_lost_timer_example : (◌≡◌ {A = ℕ} 0 1) ⊎ (0 < 1)
no_lost_timer_example = no_lost_timer kicked_once 0 true kicked_once-Reach refl refl refl
