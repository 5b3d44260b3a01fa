-- ===== src/Epoll/EventLoop/Safety.antt =====
-- The loops around the rounds, with callbacks that ask for plain notifiers.
use vm_tools.Common.{
  ℕ, zero, suc, ◌≡◌, refl, ap, inl, inr, ◌⊎◌, Bool, true, false, Bool-cases, Option, none, some,
  Outcome, ok, err, out_of_fuel,
}
use vm_tools.Epoll.Notifier.{EventError, epoll_wait}
use vm_tools.Epoll.System.{Epoll, Waits}
use vm_tools.Epoll.Context.{EventLoopContext, Result}
use vm_tools.Epoll.Context.Kernel.{Registry, IsInterestList}
use vm_tools.Epoll.Context.Synced.{IsSynced}
use vm_tools.Epoll.Context.Boxes.{HasNumbers}
use vm_tools.Epoll.Handling.{Program, Left}
use vm_tools.Epoll.Loop.{exit_by, wait_for_timers, run, prefetch_and_wait, io_thread_run}
use vm_tools.Epoll.Loop.Outcomes.{
  Reports, DoneOrFailed, wait_for_timers-DoneOrFailed, prefetch-DoneOrFailed,
}
use vm_tools.Epoll.Loop.Stays.{AsksPlain, run-Stays}
use vm_tools.Epoll.EventLoop.{EventLoop, context_error, raise}
use vm_tools.Epoll.EventLoop.Rounds.{thread_loop, main_loop_run, loop_run}

-- A cleanup of a manager returns: it neither panics nor runs out of fuel.
abbrev pub CleansUp : {H W : Type 0} → Program H W → Type 0
CleansUp {H} {W} p =
    (m : H) (w : W) → ((p.cleanup m w).0 ≡ ok tt) ⊎ ((x : EventError) × ((p.cleanup m w).0 ≡ err x))

-- A round returns a value or an error.
abbrev Answers : {K H W A : Type 0} → Left K H W A → Type 0
Answers {A = A} x = ((a : A) × (x.0 ≡ ok a)) ⊎ ((y : EventError) × (x.0 ≡ err y))

-- A loop of rounds is still running, or returned a value or an error: it did not panic.
abbrev pub RunsOrEnds : {E A : Type 0} → Outcome E A → Type 0
RunsOrEnds {E} {A} r = (r ≡ out_of_fuel) ⊎ (((a : A) × (r ≡ ok a)) ⊎ ((y : E) × (r ≡ err y)))

answered : {K H W : Type 0} (x : Left K H W Bool) → DoneOrFailed x → Answers x
answered x (inl d) = inl (true, d)
answered x (inr (y, d)) = inr (epoll_wait y, d)

module _ {K H W : Type 0} (p : Program H W) (cleans : CleansUp p) where
  exit_by-Answers :
      (o : Option H) (c : EventLoopContext K H) (w : W)
      (next : EventLoopContext K H → W → Left K H W Bool)
      → DoneOrFailed (next c w)
      → Answers (exit_by p o c w next)
  unfolding exit_by
  exit_by-Answers none c w next d = answered (next c w) d
  exit_by-Answers (some m) c w next d = elim (Bool-cases (p.should_exit m w)) [
    | inr stays ↦ rw (stays, exit_by) (answered (next c w) d)
    | inl exits ↦ elim (cleans m w) [
      | inl q ↦ rw (exits, q, exit_by) (inl (false, refl))
      | inr (x, q) ↦ rw (exits, q, exit_by) (inr (x, refl))
    ]
  ]

module _ {K H W : Type 0} (e : Epoll K) (s : Waits K W) (p : Program H W) (registered : Registry K)
    (laws : IsInterestList e registered) (numbers : HasNumbers e) (reports : Reports s registered)
    (plain : AsksPlain p) (cleans : CleansUp p) where
  run-Answers :
      (c : EventLoopContext K H) (w : W)
      → IsSynced e registered c
      → Answers (run e s p c w) × Answers (io_thread_run e s p c w)
  unfolding run io_thread_run
  run-Answers c w synced = (
    exit_by-Answers p cleans c.manager c w (wait_for_timers e s p)
        (wait_for_timers-DoneOrFailed e s p registered numbers reports c w synced),
    exit_by-Answers p cleans c.manager c w (prefetch_and_wait e s p)
        (prefetch-DoneOrFailed e s p registered numbers reports c w synced),
  )

  main_loop_run-RunsOrEnds :
      (fuel : ℕ) (c : EventLoopContext K H) (w : W)
      → IsSynced e registered c
      → RunsOrEnds (main_loop_run e s p fuel c w).0
  unfolding main_loop_run
  main_loop_run-RunsOrEnds zero c w synced = inl refl
  main_loop_run-RunsOrEnds (suc fuel) c w synced =
      let x = run e s p c w in
      let next = (run-Stays e s p registered laws plain c w synced).0 in
      let rest = main_loop_run-RunsOrEnds fuel x.1 x.2 next in
      elim ((run-Answers c w synced).0) [
        | inl (true, q) ↦ rw (q, main_loop_run) rest
        | inl (false, q) ↦ rw (q, main_loop_run) (inr (inl (tt, refl)))
        | inr (y, q) ↦ rw (q, main_loop_run) (inr (inr (y, refl)))
      ]

  thread_loop-RunsOrEnds :
      (fuel : ℕ) (c : EventLoopContext K H) (w : W)
      → IsSynced e registered c
      → RunsOrEnds (thread_loop e s p fuel c w).0
  unfolding thread_loop
  thread_loop-RunsOrEnds zero c w synced = inl refl
  thread_loop-RunsOrEnds (suc fuel) c w synced =
      let x = io_thread_run e s p c w in
      let next = (run-Stays e s p registered laws plain c w synced).1 in
      let rest = thread_loop-RunsOrEnds fuel x.1 x.2 next in
      elim ((run-Answers c w synced).1) [
        | inl (true, q) ↦ rw (q, thread_loop) rest
        | inl (false, q) ↦ rw (q, thread_loop) (inr (inl (tt, refl)))
        | inr (y, q) ↦ rw (q, thread_loop) (inr (inl (tt, refl)))
      ]

  raise-RunsOrEnds : (r : Result (Unit {0})) → RunsOrEnds r → RunsOrEnds (raise r)
  raise-RunsOrEnds r (inl q) = inl (ap raise q)
  raise-RunsOrEnds r (inr (inl (a, q))) = inr (inl (a, ap raise q))
  raise-RunsOrEnds r (inr (inr (y, q))) = inr (inr (context_error y, ap raise q))

  -- Over an interest list as documented, whose waits report its entries and whose errors carry their
  -- numbers, with callbacks that ask for plain notifiers and a cleanup that returns: from a context in
  -- which the map and the interest list agree, `loop_run` on the main context, and a thread on a
  -- context, run on or return after any number of rounds, and never panic.
  pub loop_run-RunsOrEnds :
      (fuel : ℕ) (g : EventLoop K H) (c : EventLoopContext K H) (w : W)
      → IsSynced e registered g.main_loop
      → IsSynced e registered c
      → RunsOrEnds (loop_run e s p fuel (some g) w).0 × RunsOrEnds (thread_loop e s p fuel c w).0
  unfolding loop_run
  loop_run-RunsOrEnds fuel g c w main synced = (
    raise-RunsOrEnds (main_loop_run e s p fuel g.main_loop w).0
        (main_loop_run-RunsOrEnds fuel g.main_loop w main),
    thread_loop-RunsOrEnds fuel c w synced,
  )
