-- ===== src/Epoll/Loop/Stays.antt =====
-- A round of the loop, with callbacks that ask for plain notifiers: the map and the interest list agree
-- behind it.
use vm_tools.Common.{
  ℕ, zero, suc, inl, inr, Bool, true, false, Bool-cases, not, ◌&&◌, Option, none, some,
  Option-cases, List, [], ◌∷◌, ◌++◌, if◌then◌else◌, ok, err, panic, out_of_fuel,
}
use vm_tools.Epoll.Notifier.{EventNotifier}
use vm_tools.Epoll.System.{EpollEvent, Epoll, Waits}
use vm_tools.Epoll.Context.{EventLoopContext, is_alive}
use vm_tools.Epoll.Context.Kernel.{Registry, IsInterestList}
use vm_tools.Epoll.Context.Synced.{IsSynced}
use vm_tools.Epoll.Context.Plain.{AllPlain, AllPlain-append, updates-IsSynced}
use vm_tools.Epoll.Context.Garbage.{gc_clean_lem}
use vm_tools.Epoll.Timing.{timers_min_duration}
use vm_tools.Epoll.Handling.{
  Program, Left, go_on, get_list, box_at, call_handlers, ask, handle_event, handle_events,
}
use vm_tools.Epoll.Loop.{
  ready_event_max, is_now, time_out_ms, store_kick_me, run_due, finish_round, is_eintr, wait_events,
  poll_events, epoll_wait_manager, exit_by, wait_for_timers, run, prefetch, aio_prefetch_cycle_time,
  prefetch_and_wait, io_thread_run,
}
use vm_tools.Epoll.Loop.Outcomes.{Wait-cases, Poll-cases, store-IsSynced}

-- Every callback asks for plain notifiers only.
abbrev pub AsksPlain : {H W : Type 0} → Program H W → Type 0
AsksPlain {H} {W} p = (h : H) (event fd : ℕ) (w : W) → AllPlain (get_list (p.call h event fd w).0)

module _ {H W : Type 0} (p : Program H W) (plain : AsksPlain p) where
  call_handlers-AllPlain :
      (hs : List H) (event fd : ℕ) (ns : List (EventNotifier H)) (w : W)
      → AllPlain ns
      → AllPlain (call_handlers p hs event fd ns w).0
  unfolding call_handlers
  call_handlers-AllPlain [] event fd ns w h = h
  call_handlers-AllPlain (f ∷ hs) event fd ns w h =
      let x = p.call f event fd w in
      call_handlers-AllPlain hs event fd (ns ++ get_list x.0) x.1
        (AllPlain-append ns (get_list x.0) h (plain f event fd w))

  ask-AllPlain : (n : EventNotifier H) (event : ℕ) (w : W) → AllPlain (ask p n event w).0
  unfolding ask
  ask-AllPlain n event w = elim (Bool-cases (is_alive n.status)) [
    | inl live ↦ rw (live, ask) (call_handlers-AllPlain n.handlers event n.raw_fd [] w tt)
    | inr dead ↦ rw (dead, ask) tt
  ]

module _ {K H W : Type 0} (e : Epoll K) (s : Waits K W) (p : Program H W) (registered : Registry K)
    (laws : IsInterestList e registered) (plain : AsksPlain p) where
  -- The context that is left has its map and the interest list agree.
  abbrev pub Stays : {A : Type 0} → Left K H W A → Type 0
  Stays x = IsSynced e registered x.1

  go_on-Stays :
      {A B : Type 0} (x : Left K H W A) (next : EventLoopContext K H → W → Left K H W B)
      → Stays x
      → ((c : EventLoopContext K H) (w : W) → IsSynced e registered c → Stays (next c w))
      → Stays (go_on x next)
  go_on-Stays (ok a, c, w) next h go = go c w h
  go_on-Stays (err x, c, w) next h go = h
  go_on-Stays (panic, c, w) next h go = h
  go_on-Stays (out_of_fuel, c, w) next h go = h

  handle_event-Stays :
      (c : EventLoopContext K H) (w : W) (ev : EpollEvent)
      → IsSynced e registered c
      → Stays (handle_event e p c w ev)
  unfolding handle_event
  handle_event-Stays c w ev synced = elim (Option-cases (box_at ev.data_ c)) [
    | inl dropped ↦ rw (dropped, handle_event) synced
    | inr (n, found) ↦
        rw (found, handle_event)
          (updates-IsSynced e registered laws c (ask p n ev.events w).0
            (ask-AllPlain p plain n ev.events w) synced)
  ]

  handle_events-Stays :
      (evs : List EpollEvent) (c : EventLoopContext K H) (w : W)
      → IsSynced e registered c
      → Stays (handle_events e p c w evs)
  unfolding handle_events
  handle_events-Stays [] c w synced = synced
  handle_events-Stays (ev ∷ evs) c w synced =
      go_on-Stays (handle_event e p c w ev) (λ c' w'. handle_events e p c' w' evs)
        (handle_event-Stays c w ev synced) (λ c' w' h. handle_events-Stays evs c' w' h)

  finish_round-Stays :
      (c : EventLoopContext K H) (w : W) → IsSynced e registered c → Stays (finish_round s p c w)
  unfolding finish_round run_due
  finish_round-Stays c w synced = rw (gc_clean_lem (run_due s p c w).0, finish_round) synced

  wait_events-Stays :
      (need_kc : Bool) (t : Option ℕ) (c : EventLoopContext K H) (w : W)
      → IsSynced e registered c
      → Stays (wait_events e s p need_kc t c w)
  unfolding wait_events
  wait_events-Stays need_kc t c w synced =
      let r = s.wait (time_out_ms t) ready_event_max c.epoll w in
      let c' = store_kick_me need_kc false c in
      let synced' = store-IsSynced e registered need_kc false c synced in
      elim (Wait-cases r.0) [
        | inl (evs, q) ↦
            rw (q, wait_events)
              (go_on-Stays (handle_events e p c' r.1 evs) (finish_round s p)
                (handle_events-Stays evs c' r.1 synced') finish_round-Stays)
        | inr (x, q) ↦ elim (Bool-cases (is_eintr s.eintr x.raw_os_error)) [
          | inl again ↦ rw (q, again, wait_events) (finish_round-Stays c' r.1 synced')
          | inr other ↦ rw (q, other, wait_events) synced
        ]
      ]

  poll_events-Stays :
      (need_kc : Bool) (t : Option ℕ) (c : EventLoopContext K H) (w : W)
      → IsSynced e registered c
      → Stays (poll_events e s p need_kc t c w)
  unfolding poll_events
  poll_events-Stays need_kc none c w synced = wait_events-Stays need_kc none c w synced
  poll_events-Stays need_kc (some zero) c w synced = wait_events-Stays need_kc (some 0) c w synced
  poll_events-Stays need_kc (some (suc t)) c w synced =
      let r = s.ppoll (suc t) c.epoll w in
      elim (Poll-cases r.0) [
        | inl q ↦ rw (q, poll_events) (wait_events-Stays need_kc (some 0) c r.1 synced)
        | inr (n, q) ↦ elim (Bool-cases (is_eintr s.eintr (some n))) [
          | inl again ↦ rw (q, again, poll_events) (wait_events-Stays need_kc (some 0) c r.1 synced)
          | inr other ↦ rw (q, other, poll_events) synced
        ]
      ]

  wait_for_timers-Stays :
      (c : EventLoopContext K H) (w : W)
      → IsSynced e registered c
      → Stays (wait_for_timers e s p c w)
  unfolding wait_for_timers timers_min_duration epoll_wait_manager
  wait_for_timers-Stays c w synced =
      let (t, c') = timers_min_duration c (s.now w) in
      let need_kc = not (is_now t) in
      poll_events-Stays need_kc (if need_kc && c'.kicked then some 0 else t)
        (store_kick_me need_kc true c') w (store-IsSynced e registered need_kc true c' synced)

  prefetch_and_wait-Stays :
      (c : EventLoopContext K H) (w : W)
      → IsSynced e registered c
      → Stays (prefetch_and_wait e s p c w)
  unfolding prefetch_and_wait timers_min_duration
  prefetch_and_wait-Stays c w synced =
      let (t, c') = timers_min_duration c (s.now w) in
      elim (Option-cases t) [
        | inl idle ↦
            rw (idle, prefetch_and_wait)
              (wait_for_timers-Stays c' (prefetch p aio_prefetch_cycle_time c' w) synced)
        | inr (n, waits) ↦ rw (waits, prefetch_and_wait) (wait_for_timers-Stays c' w synced)
      ]

  exit_by-Stays :
      (o : Option H) (c : EventLoopContext K H) (w : W)
      (next : EventLoopContext K H → W → Left K H W Bool)
      → IsSynced e registered c
      → Stays (next c w)
      → Stays (exit_by p o c w next)
  unfolding exit_by
  exit_by-Stays none c w next synced h = h
  exit_by-Stays (some m) c w next synced h = elim (Bool-cases (p.should_exit m w)) [
    | inr stays ↦ rw (stays, exit_by) h
    | inl exits ↦
        let r = p.cleanup m w in
        rw (exits, exit_by)
          (go_on-Stays (r.0, c, r.1) (λ c' w'. (ok false, c', w')) synced (λ c' w' q. q))
  ]

  pub run-Stays :
      (c : EventLoopContext K H) (w : W)
      → IsSynced e registered c
      → Stays (run e s p c w) × Stays (io_thread_run e s p c w)
  unfolding run io_thread_run
  run-Stays c w synced = (
    exit_by-Stays c.manager c w (wait_for_timers e s p) synced (wait_for_timers-Stays c w synced),
    exit_by-Stays c.manager c w (prefetch_and_wait e s p) synced
        (prefetch_and_wait-Stays c w synced),
  )
