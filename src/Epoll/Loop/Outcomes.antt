-- ===== src/Epoll/Loop/Outcomes.antt =====
-- What a round of the loop comes back with.
use vm_tools.Common.{
  not-none-some, some-inj, ℕ, zero, suc, ◌≡◌, ◌↔◌, ◌⊎◌, inl, inr, refl, sym, subst, arith, Bool,
  true, false, Bool-cases, not, ◌&&◌, Option, none, some, Option-cases, List, if◌then◌else◌, ok,
  err, panic, out_of_fuel,
}
use vm_tools.Common.Int.{ℤ}
use vm_tools.Epoll.Notifier.{epoll_wait}
use vm_tools.UtilErrors.{IoError}
use vm_tools.Epoll.System.{
  EpollEvent, Epoll, PollResult, polled, poll_failed, WaitResult, ready, wait_failed, Waits,
}
use vm_tools.Epoll.Context.{EventLoopContext, Result}
use vm_tools.Epoll.Context.Kernel.{Registry}
use vm_tools.Epoll.Context.Synced.{IsSynced}
use vm_tools.Epoll.Context.Boxes.{HasNumbers}
use vm_tools.Epoll.Context.Garbage.{gc_clean_lem}
use vm_tools.Epoll.Timing.{timers_min_duration}
use vm_tools.Epoll.Handling.{Program, Left, go_on, handle_events}
use vm_tools.Epoll.Handling.Safety.{AllRegistered, AllRegistered-Kept, go_on-ok, handle_events-ok}
use vm_tools.Epoll.Loop.{
  ready_event_max, is_now, time_out_ms, store_kick_me, run_due, finish_round, is_eintr, wait_events,
  poll_events, epoll_wait_manager, exit_by, wait_for_timers, run, prefetch, aio_prefetch_cycle_time,
  prefetch_and_wait, io_thread_run,
}

-- The wait reports entries of the interest list only.
abbrev pub Reports : {K W : Type 0} → Waits K W → Registry K → Type 0
Reports {K} {W} s registered =
    (t : ℤ) (m : ℕ) (k : K) (w : W) (evs : List EpollEvent)
    → (s.wait t m k w).0 ≡ ready evs
    → AllRegistered (registered k) evs

pub Wait-cases :
    (r : WaitResult)
    → ((evs : List EpollEvent) × (r ≡ ready evs)) ⊎ ((x : IoError) × (r ≡ wait_failed x))
Wait-cases (ready evs) = inl (evs, refl)
Wait-cases (wait_failed x) = inr (x, refl)

pub Poll-cases : (r : PollResult) → (r ≡ polled) ⊎ ((n : ℕ) × (r ≡ poll_failed n))
Poll-cases polled = inl refl
Poll-cases (poll_failed n) = inr (n, refl)

clash : (b : Bool) → b ≡ true → b ≡ false → ⊥
clash b h k = ground arith

module _ {K H W : Type 0} where
  -- The round is done, or the wait failed.
  abbrev pub DoneOrFailed : Left K H W Bool → Type 0
  DoneOrFailed x = (x.0 ≡ ok true) ⊎ ((y : IoError) × (x.0 ≡ err (epoll_wait y)))

  finish_round-ok :
      (s : Waits K W) (p : Program H W) (c : EventLoopContext K H) (w : W)
      → (finish_round s p c w).0 ≡ ok true
  unfolding finish_round
  finish_round-ok s p c w = rw (gc_clean_lem (run_due s p c w).0, finish_round)

module _ {H W : Type 0} (p : Program H W) where
  -- The manager says that the loop should end, and its cleanup succeeds.
  abbrev pub EndsBy : Option H → W → Type 0
  EndsBy manager w =
      (m : H) × (manager ≡ some m) × (p.should_exit m w ≡ true) × ((p.cleanup m w).0 ≡ ok tt)

module _ {K H : Type 0} (e : Epoll K) (registered : Registry K) where
  pub store-IsSynced :
      (need_kc value : Bool) (c : EventLoopContext K H)
      → IsSynced e registered c
      → IsSynced e registered (store_kick_me need_kc value c)
  store-IsSynced true value c synced = synced
  store-IsSynced false value c synced = synced

module _ {K H W : Type 0} (e : Epoll K) (s : Waits K W) (p : Program H W) (registered : Registry K)
    (numbers : HasNumbers e) (reports : Reports s registered) where
  store-epoll :
      (need_kc value : Bool) (c : EventLoopContext K H)
      → (store_kick_me need_kc value c).epoll ≡ c.epoll
  store-epoll true value c = refl
  store-epoll false value c = refl

  wait-DoneOrFailed :
      (need_kc : Bool) (t : Option ℕ) (c : EventLoopContext K H) (w : W)
      → IsSynced e registered c
      → DoneOrFailed (wait_events e s p need_kc t c w)
  unfolding wait_events
  wait-DoneOrFailed need_kc t c w synced =
      let r = s.wait (time_out_ms t) ready_event_max c.epoll w in
      let c' = store_kick_me need_kc false c in
      elim (Wait-cases r.0) [
        | inl (evs, q) ↦
            let all = reports (time_out_ms t) ready_event_max c.epoll w evs q in
            let all' =
              subst (λ k. AllRegistered (registered k) evs) (sym (store-epoll need_kc false c))
                all in
            let kept =
              AllRegistered-Kept e registered c' evs
                (store-IsSynced e registered need_kc false c synced) all' in
            let x = handle_events e p c' r.1 evs in
            rw
              (
                q,
                wait_events,
                go_on-ok x (finish_round s p) tt (handle_events-ok e p numbers evs c' r.1 kept),
              )
              (inl (finish_round-ok s p x.1 x.2))
        | inr (x, q) ↦ elim (Bool-cases (is_eintr s.eintr x.raw_os_error)) [
          | inl again ↦ rw (q, again, wait_events) (inl (finish_round-ok s p c' r.1))
          | inr other ↦ rw (q, other, wait_events) (inr (x, refl))
        ]
      ]

  poll-DoneOrFailed :
      (need_kc : Bool) (t : Option ℕ) (c : EventLoopContext K H) (w : W)
      → IsSynced e registered c
      → DoneOrFailed (poll_events e s p need_kc t c w)
  unfolding poll_events
  poll-DoneOrFailed need_kc none c w synced = wait-DoneOrFailed need_kc none c w synced
  poll-DoneOrFailed need_kc (some zero) c w synced = wait-DoneOrFailed need_kc (some 0) c w synced
  poll-DoneOrFailed need_kc (some (suc t)) c w synced =
      let r = s.ppoll (suc t) c.epoll w in
      elim (Poll-cases r.0) [
        | inl q ↦ rw (q, poll_events) (wait-DoneOrFailed need_kc (some 0) c r.1 synced)
        | inr (n, q) ↦ elim (Bool-cases (is_eintr s.eintr (some n))) [
          | inl again ↦ rw (q, again, poll_events) (wait-DoneOrFailed need_kc (some 0) c r.1 synced)
          | inr other ↦ rw (q, other, poll_events) (inr (record { raw_os_error = some n }, refl))
        ]
      ]

  -- Where the map and the interest list agree, the system's errors carry their numbers and its waits
  -- report entries of the list, a call of `epoll_wait_manager` comes back with `Ok(true)` or with the
  -- error of a wait, whatever the callbacks do: it meets no box that was dropped, and does not panic.
  pub epoll_wait_manager-DoneOrFailed :
      (c : EventLoopContext K H) (w : W) (time_out : Option ℕ)
      → IsSynced e registered c
      → DoneOrFailed (epoll_wait_manager e s p c w time_out)
  unfolding epoll_wait_manager
  epoll_wait_manager-DoneOrFailed c w time_out synced =
      let need_kc = not (is_now time_out) in
      poll-DoneOrFailed need_kc (if need_kc && c.kicked then some 0 else time_out)
        (store_kick_me need_kc true c) w (store-IsSynced e registered need_kc true c synced)

  not_ended : (x : Left K H W Bool) → DoneOrFailed x → x.0 ≡ ok false → ⊥
  not_ended x (inl d) h = ground arith
  not_ended x (inr (y, f)) h = ground arith

  pub wait_for_timers-DoneOrFailed :
      (c : EventLoopContext K H) (w : W)
      → IsSynced e registered c
      → DoneOrFailed (wait_for_timers e s p c w)
  unfolding wait_for_timers timers_min_duration
  wait_for_timers-DoneOrFailed c w synced =
      epoll_wait_manager-DoneOrFailed (record c { kicked = false }) w
        (timers_min_duration c (s.now w)).0 synced

  pub prefetch-DoneOrFailed :
      (c : EventLoopContext K H) (w : W)
      → IsSynced e registered c
      → DoneOrFailed (prefetch_and_wait e s p c w)
  unfolding prefetch_and_wait timers_min_duration
  prefetch-DoneOrFailed c w synced =
      let (t, c') = timers_min_duration c (s.now w) in
      elim (Option-cases t) [
        | inl idle ↦
            rw (idle, prefetch_and_wait)
              (wait_for_timers-DoneOrFailed c' (prefetch p aio_prefetch_cycle_time c' w) synced)
        | inr (n, waits) ↦ rw (waits, prefetch_and_wait) (wait_for_timers-DoneOrFailed c' w synced)
      ]

  cleanup_ends :
      (r : Result (Unit {0})) (c : EventLoopContext K H) (w : W)
      → ((go_on (r, c, w) (λ c' w'. (ok false, c', w'))).0 ≡ ok false) ↔ (r ≡ ok tt)
  cleanup_ends (ok _) c w = (λ h. refl, λ h. refl)
  cleanup_ends (err x) c w = (λ h. ground arith, λ h. ground arith)
  cleanup_ends panic c w = (λ h. ground arith, λ h. ground arith)
  cleanup_ends out_of_fuel c w = (λ h. ground arith, λ h. ground arith)

  exit_by-Ends :
      (o : Option H) (c : EventLoopContext K H) (w : W)
      (next : EventLoopContext K H → W → Left K H W Bool)
      → DoneOrFailed (next c w)
      → ((exit_by p o c w next).0 ≡ ok false) ↔ EndsBy p o w
  unfolding exit_by
  exit_by-Ends none c w next d = (
    λ h. absurd (not_ended (next c w) d h),
    λ (m, managed, _, _). absurd (not-none-some m managed),
  )
  exit_by-Ends (some m) c w next d = elim (Bool-cases (p.should_exit m w)) [
    | inr stays ↦ (
      λ h. absurd (not_ended (next c w) d (rw (stays, exit_by) at h)),
      λ (m', managed', exits', _).
          let same = some-inj m m' managed' in
          let stays' : p.should_exit m w ≡ true =
            subst (λ x. p.should_exit x w ≡ true) (sym same) exits' in
          absurd (clash (p.should_exit m w) stays' stays),
    )
    | inl exits ↦
        let r = p.cleanup m w in
        let ends = cleanup_ends r.0 c r.1 in
        (
          λ h. (m, refl, exits, ends.0 (rw (exits, exit_by) at h)),
          λ (m', managed', _, cleaned).
              let same = some-inj m m' managed' in
              rw (exits, exit_by)
                (ends.1 (subst (λ x. (p.cleanup x w).0 ≡ ok tt) (sym same) cleaned)),
        )
  ]

  -- Under the same conditions, `run` comes back with `Ok(false)` exactly where the manager says that the
  -- loop should end and its cleanup succeeds; and so does `io_thread_run`.
  pub run-Ends :
      (c : EventLoopContext K H) (w : W)
      → IsSynced e registered c
      → (((run e s p c w).0 ≡ ok false) ↔ EndsBy p c.manager w)
        × (((io_thread_run e s p c w).0 ≡ ok false) ↔ EndsBy p c.manager w)
  unfolding run io_thread_run
  run-Ends c w synced = (
    exit_by-Ends c.manager c w (wait_for_timers e s p) (wait_for_timers-DoneOrFailed c w synced),
    exit_by-Ends c.manager c w (prefetch_and_wait e s p) (prefetch-DoneOrFailed c w synced),
  )
