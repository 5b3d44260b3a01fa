-- ===== src/Epoll/Timing.antt =====
-- The methods of `EventLoopContext` in epoll/src/event_context.rs on its timers, and `set_manager`.
use vm_tools.Common.{ℕ, false, Option, some}
use vm_tools.Epoll.Timers.{new_timer, add_timer, del_timer, min_duration}
use vm_tools.Epoll.Context.{EventLoopContext, tick}

module _ {K H : Type 0} where
  -- `timer_add`, with its timer boxed at `addr`; the id is that address.
  unfoldable pub timer_add : EventLoopContext K H → H → ℕ → ℕ → ℕ → ℕ × EventLoopContext K H
  timer_add c func delay addr now =
      (addr, tick (record c { timers = add_timer (new_timer addr func delay now) c.timers }))

  unfoldable pub timer_del : EventLoopContext K H → ℕ → EventLoopContext K H
  timer_del c timer_id = record c { timers = del_timer timer_id c.timers }

  unfoldable pub timers_min_duration : EventLoopContext K H → ℕ → Option ℕ × EventLoopContext K H
  timers_min_duration c now = (min_duration c.timers now, record c { kicked = false })

  unfoldable pub set_manager : EventLoopContext K H → H → EventLoopContext K H
  set_manager c manager = record c { manager = some manager }
