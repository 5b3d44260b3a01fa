-- ===== src/Epoll/Context/Start.antt =====
-- `EventLoopContext::new` and `init_tick` of epoll/src/event_context.rs: a new context, over a new
-- interest list, with the notifier of `kick_event`. The system gives both, or fails to.
use vm_tools.Common.{
  ℕ, ◌≡◌, refl, subst, arith, false, Option, none, some, [], ◌∷◌, ok, err, panic, out_of_fuel,
}
use vm_tools.Epoll.Clock
use vm_tools.Common.Maps.{get}
use vm_tools.Epoll.Notifier.{add_exclusion, new_notifier}
use vm_tools.Epoll.System.{Epoll}
use vm_tools.Epoll.Context.{EventLoopContext, Result, add_event}
use vm_tools.Epoll.Context.Kernel.{Registry, IsInterestList}
use vm_tools.Epoll.Context.Synced.{IsSynced}
use vm_tools.Epoll.Context.Addition.{add_event-IsSynced}

module _ {K H : Type 0} where
  -- The fields that `new` fills, ahead of `init_tick`.
  abbrev pub blank : K → ℕ → EventLoopContext K H
  blank k now = record {
    epoll = k;
    kick_me = false;
    kicked = false;
    kicks = 0;
    events = [];
    gc = [];
    timers = [];
    manager = none;
    clock_state = Clock.default now;
  }

  -- `unwrap()` of what an operation comes back with.
  abbrev pub unwrap : Result (Unit {0}) × EventLoopContext K H → Result (EventLoopContext K H)
  unwrap (ok _, c) = ok c
  unwrap (err x, c) = panic
  unwrap (panic, c) = panic
  unwrap (out_of_fuel, c) = out_of_fuel

  unfoldable pub init_tick :
      Epoll K → EventLoopContext K H → ℕ → H → ℕ → Result (EventLoopContext K H)
  init_tick e c kick_fd kick_handler addr =
      unwrap (
        add_event e c (new_notifier add_exclusion kick_fd none e.event_in (kick_handler ∷ []) addr))

  -- The `unwrap()` of `Epoll::new()` and that of `EventFd::new(…)` panic where the system gives none.
  unfoldable pub new : Epoll K → Option K → ℕ → Option ℕ → H → ℕ → Result (EventLoopContext K H)
  new e none now kick_event kick_handler addr = panic
  new e (some k) now none kick_handler addr = panic
  new e (some k) now (some kick_fd) kick_handler addr =
      init_tick e (blank k now) kick_fd kick_handler addr

  unwrap-IsSynced :
      (e : Epoll K) (registered : Registry K) (x : Result (Unit {0}) × EventLoopContext K H)
      (c : EventLoopContext K H)
      → (x.0 ≡ ok tt → IsSynced e registered x.1)
      → unwrap x ≡ ok c
      → IsSynced e registered c
  unwrap-IsSynced e registered (ok _, c') c good h =
      let same : c' ≡ c = cc in subst (λ d. IsSynced e registered d) same (good refl)
  unwrap-IsSynced e registered (err x, c') c good h = ground arith
  unwrap-IsSynced e registered (panic, c') c good h = ground arith
  unwrap-IsSynced e registered (out_of_fuel, c') c good h = ground arith

  -- In a new context over an interest list with no entry, the map and the interest list agree.
  pub new-IsSynced :
      (e : Epoll K) (registered : Registry K)
      → IsInterestList e registered
      → (epoll : Option K) (now : ℕ) (kick_event : Option ℕ) (addr : ℕ) (kick_handler : H)
        (c : EventLoopContext K H)
      → ((k : K) (fd : ℕ) → epoll ≡ some k → registered k fd ≡ none)
      → new e epoll now kick_event kick_handler addr ≡ ok c
      → IsSynced e registered c
  unfolding new init_tick new_notifier get
  new-IsSynced e registered laws none now kick_event addr kick_handler c fresh h =
      absurd (ground arith)
  new-IsSynced e registered laws (some k) now none addr kick_handler c fresh h =
      absurd (ground arith)
  new-IsSynced e registered laws (some k) now (some kick_fd) addr kick_handler c fresh h =
      let kick = new_notifier add_exclusion kick_fd none e.event_in (kick_handler ∷ []) addr in
      unwrap-IsSynced e registered (add_event e (blank k now) kick) c
        (λ q.
          add_event-IsSynced e registered laws (blank k now) kick refl (λ fd. fresh k fd refl) q)
        h
