-- ===== src/Epoll/Loop.antt =====
-- `epoll_wait_manager`, `run` and `io_thread_run` of `EventLoopContext` in epoll/src/event_context.rs.
pub mod Outcomes
pub mod Stays
use vm_tools.Common.{
  ℕ, zero, suc, ◌/◌, ◌%◌, ◌^◌, ◌-◌, Bool, true, false, not, ◌&&◌, Option, none, some, List, [], ◌∷◌,
  ◌==◌, ltb, if◌then◌else◌, ok, err, panic, out_of_fuel,
}
use vm_tools.Common.Int.{ℤ, pos, negsuc}
use vm_tools.Common.Maps.{in_order}
use vm_tools.Epoll.Notifier.{EventNotifier, epoll_wait}
use vm_tools.Epoll.System.{Epoll, polled, poll_failed, ready, wait_failed, Waits}
use vm_tools.Epoll.Timers.{run_timers}
use vm_tools.Epoll.Context.{EventLoopContext, is_alive, gc_clean}
use vm_tools.Epoll.Timing.{timers_min_duration}
use vm_tools.Epoll.Handling.{Program, Left, go_on, handle_events}

abbrev pub ready_event_max : ℕ
ready_event_max = 256

abbrev pub aio_prefetch_cycle_time : ℕ
aio_prefetch_cycle_time = 100

abbrev pub is_some : {A : Type 0} → Option A → Bool
is_some none = false
is_some (some x) = true

-- `*time_out == Duration::ZERO`, if there is a time.
abbrev pub is_now : Option ℕ → Bool
is_now none = false
is_now (some t) = t == 0

-- `t.as_millis() as i32`.
abbrev pub as_i32 : ℕ → ℤ
as_i32 ms = let low = ms % 2 ^ 32 in if ltb low (2 ^ 31) then pos low else negsuc (2 ^ 32 - 1 - low)

abbrev pub time_out_ms : Option ℕ → ℤ
time_out_ms none = negsuc 0
time_out_ms (some t) = as_i32 (t / 1000000)

-- An error number, if there is one, is that of an interruption.
abbrev pub is_eintr : ℕ → Option ℕ → Bool
is_eintr eintr none = false
is_eintr eintr (some n) = n == eintr

-- `if need_kc { self.kick_me.store(value, …) }`.
abbrev pub store_kick_me :
    {K H : Type 0} → Bool → Bool → EventLoopContext K H → EventLoopContext K H
store_kick_me true value c = record c { kick_me = value }
store_kick_me false value c = c

module _ {H W : Type 0} (p : Program H W) where
  unfoldable pub fire_all : List H → W → W
  fire_all [] w = w
  fire_all (f ∷ fs) w = fire_all fs (p.fire f w)

  -- `handler_poll` of a notifier that is alive and has one: did it come back with something?
  unfoldable pub polled_by : EventNotifier H → W → Option (Bool × W)
  polled_by n w = elim n.handler_poll [
    | none ↦ none
    | some handler_poll ↦
        if is_alive n.status
        then (let (r, w') = p.call handler_poll 0 n.raw_fd w in some (is_some r, w'))
        else none
  ]

  -- The inner loop of `io_thread_run`: the first callback that comes back with something ends it.
  unfoldable pub poll_notifiers : List (ℕ × EventNotifier H) → W → W
  poll_notifiers [] w = w
  poll_notifiers ((fd, n) ∷ rest) w = elim (polled_by n w) [
    | none ↦ poll_notifiers rest w
    | some (found, w') ↦ if found then w' else poll_notifiers rest w'
  ]

  unfoldable pub prefetch : {K : Type 0} → ℕ → EventLoopContext K H → W → W
  prefetch zero c w = w
  prefetch (suc rounds) c w = prefetch rounds c (poll_notifiers (in_order c.events) w)

module _ {K H W : Type 0} (p : Program H W) where
  -- `manager.loop_should_exit()`, if there is a manager: its answer ends the loop.
  unfoldable pub exit_by :
      Option H
      → EventLoopContext K H
      → W
      → (EventLoopContext K H → W → Left K H W Bool)
      → Left K H W Bool
  exit_by none c w next = next c w
  exit_by (some m) c w next = elim (p.should_exit m w) [
    | false ↦ next c w
    | true ↦ let (r, w') = p.cleanup m w in go_on (r, c, w') (λ c' w''. (ok false, c', w''))
  ]

  abbrev pub exit_first :
      EventLoopContext K H → W → (EventLoopContext K H → W → Left K H W Bool) → Left K H W Bool
  exit_first c w next = exit_by c.manager c w next

module _ {K H W : Type 0} (s : Waits K W) (p : Program H W) where
  unfoldable pub run_due : EventLoopContext K H → W → EventLoopContext K H × W
  run_due c w =
      let (due, left) = run_timers (s.now w) c.timers in
      (record c { timers = left }, fire_all p due w)

  -- `self.run_timers(); self.gc_clean(); Ok(true)`.
  unfoldable pub finish_round : EventLoopContext K H → W → Left K H W Bool
  finish_round c w =
      let (c', w') = run_due c w in
      elim (gc_clean c') [
        | ok c'' ↦ (ok true, c'', w')
        | err x ↦ (err x, c', w')
        | panic ↦ (panic, c', w')
        | out_of_fuel ↦ (out_of_fuel, c', w')
      ]

module _ {K H W : Type 0} (e : Epoll K) (s : Waits K W) (p : Program H W) where
  -- The wait of `epoll`, and what comes behind it.
  unfoldable pub wait_events : Bool → Option ℕ → EventLoopContext K H → W → Left K H W Bool
  wait_events need_kc time_out c w =
      let (r, w') = s.wait (time_out_ms time_out) ready_event_max c.epoll w in
      let c' = store_kick_me need_kc false c in
      elim r [
        | ready evs ↦ go_on (handle_events e p c' w' evs) (finish_round s p)
        | wait_failed x ↦
            if is_eintr s.eintr x.raw_os_error
            then finish_round s p c' w'
            else (err (epoll_wait x), c, w')
      ]

  -- `ppoll`, where there is a time to wait for that is not 0.
  unfoldable pub poll_events : Bool → Option ℕ → EventLoopContext K H → W → Left K H W Bool
  poll_events need_kc none c w = wait_events need_kc none c w
  poll_events need_kc (some zero) c w = wait_events need_kc (some zero) c w
  poll_events need_kc (some (suc t)) c w =
      let (r, w') = s.ppoll (suc t) c.epoll w in
      elim r [
        | polled ↦ wait_events need_kc (some 0) c w'
        | poll_failed n ↦
            if is_eintr s.eintr (some n)
            then wait_events need_kc (some 0) c w'
            else (err (epoll_wait (record { raw_os_error = some n })), c, w')
      ]

  unfoldable pub epoll_wait_manager : EventLoopContext K H → W → Option ℕ → Left K H W Bool
  epoll_wait_manager c w time_out =
      let need_kc = not (is_now time_out) in
      let c' = store_kick_me need_kc true c in
      let time_out' = if need_kc && c.kicked then some 0 else time_out in
      poll_events need_kc time_out' c' w

  -- `self.epoll_wait_manager(self.timers_min_duration())`.
  unfoldable pub wait_for_timers : EventLoopContext K H → W → Left K H W Bool
  wait_for_timers c w =
      let (time_out, c') = timers_min_duration c (s.now w) in epoll_wait_manager c' w time_out

  unfoldable pub run : EventLoopContext K H → W → Left K H W Bool
  run c w = exit_first p c w wait_for_timers

  -- Where no timer is set, the callbacks of `handler_poll` are tried first.
  unfoldable pub prefetch_and_wait : EventLoopContext K H → W → Left K H W Bool
  prefetch_and_wait c w =
      let (min_timeout, c') = timers_min_duration c (s.now w) in
      elim min_timeout [
        | none ↦ wait_for_timers c' (prefetch p aio_prefetch_cycle_time c' w)
        | some t ↦ wait_for_timers c' w
      ]

  unfoldable pub io_thread_run : EventLoopContext K H → W → Left K H W Bool
  io_thread_run c w = exit_first p c w prefetch_and_wait
