-- ===== src/Epoll/EventLoop/Rounds.antt =====
-- The loops around a round: what `loop_init` of epoll/src/event_loop.rs spawns, and `loop_run`.
use vm_tools.Common.{
  ℕ, zero, suc, true, false, Option, none, some, Outcome, ok, err, panic, out_of_fuel,
}
use vm_tools.Epoll.System.{Epoll, Waits}
use vm_tools.Epoll.Context.{EventLoopContext}
use vm_tools.Epoll.Handling.{Program, Left}
use vm_tools.Epoll.Loop.{run, io_thread_run}
use vm_tools.Epoll.EventLoop.{EventLoop, LoopError, not_initialized, raise}

module _ {K H W : Type 0} (e : Epoll K) (s : Waits K W) (p : Program H W) where
  -- What `spawn` runs: rounds up to an error or an exit. A thread that goes on has no fuel left.
  unfoldable pub thread_loop : ℕ → EventLoopContext K H → W → Left K H W (Unit {0})
  thread_loop zero c w = (out_of_fuel, c, w)
  thread_loop (suc fuel) c w =
      let (r, c', w') = io_thread_run e s p c w in
      elim r [
        | ok true ↦ thread_loop fuel c' w'
        | ok false ↦ (ok tt, c', w')
        | err x ↦ (ok tt, c', w')
        | panic ↦ (panic, c', w')
        | out_of_fuel ↦ (out_of_fuel, c', w')
      ]

  -- The loop of `loop_run`.
  unfoldable pub main_loop_run : ℕ → EventLoopContext K H → W → Left K H W (Unit {0})
  main_loop_run zero c w = (out_of_fuel, c, w)
  main_loop_run (suc fuel) c w =
      let (r, c', w') = run e s p c w in
      elim r [
        | ok true ↦ main_loop_run fuel c' w'
        | ok false ↦ (ok tt, c', w')
        | err x ↦ (err x, c', w')
        | panic ↦ (panic, c', w')
        | out_of_fuel ↦ (out_of_fuel, c', w')
      ]

  unfoldable pub loop_run :
      ℕ → Option (EventLoop K H) → W → Outcome LoopError (Unit {0}) × Option (EventLoop K H) × W
  loop_run fuel none w = (err not_initialized, none, w)
  loop_run fuel (some event_loop) w =
      let (r, c, w') = main_loop_run fuel event_loop.main_loop w in
      (raise r, some (record event_loop { main_loop = c }), w')
