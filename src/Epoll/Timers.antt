-- ===== src/Epoll/Timers.antt =====
-- `Timer` of epoll/src/timer.rs, and the timer methods of `EventLoopContext` in
-- epoll/src/event_context.rs, over the list `timers`. A timer's id is the address of its box.
pub mod Laws
use vm_tools.Common.{
  ℕ, zero, suc, ◌+◌, ◌-◌, Bool, Option, none, some, List, [], ◌∷◌, ltb, leb, ◌==◌, if◌then◌else◌,
  length, take, drop, insert_at, remove_at, map,
}

pub record Timer (F : Type 0) : Type 0 where
  pub id : ℕ
  pub func : F
  pub expire_time : ℕ

module _ {F : Type 0} where
  -- `Timer::new`, boxed at the address `id`.
  unfoldable pub new_timer : ℕ → F → ℕ → ℕ → Timer F
  new_timer id func delay now = record { id = id; func = func; expire_time = now + delay }

  -- The loop of `timer_add` at index `item`: the first timer that expires later, or the end.
  unfoldable pub insert_index : ℕ → ℕ → List (Timer F) → ℕ
  insert_index expire item [] = item
  insert_index expire item (t ∷ rest) =
      if ltb expire t.expire_time then item else insert_index expire (item + 1) rest

  -- `timer_add`, less the `tick` behind it.
  unfoldable pub add_timer : Timer F → List (Timer F) → List (Timer F)
  add_timer timer timers = insert_at timers (insert_index timer.expire_time 0 timers) timer

  -- The loop of `timer_del` at index `item`, over the timers that are left to look at.
  unfoldable pub del_from : ℕ → ℕ → List (Timer F) → List (Timer F) → List (Timer F)
  del_from timer_id item [] timers = timers
  del_from timer_id item (t ∷ rest) timers =
      if t.id == timer_id then remove_at timers item else del_from timer_id (item + 1) rest timers

  unfoldable pub del_timer : ℕ → List (Timer F) → List (Timer F)
  del_timer timer_id timers = del_from timer_id 0 timers timers

  -- `saturating_duration_since` stops at 0.
  unfoldable pub min_duration : List (Timer F) → ℕ → Option ℕ
  min_duration [] now = none
  min_duration (t ∷ rest) now = some (t.expire_time - now)

  -- The counting loop of `run_timers`.
  unfoldable pub expired_nr : ℕ → ℕ → List (Timer F) → ℕ
  expired_nr now nr [] = nr
  expired_nr now nr (t ∷ rest) = if ltb now t.expire_time then nr else expired_nr now (nr + 1) rest

  -- `run_timers`: the callbacks that it calls, in order, and the timers that it leaves.
  unfoldable pub run_timers : ℕ → List (Timer F) → List F × List (Timer F)
  run_timers now timers =
      let nr = expired_nr now 0 timers in
      (map (λ (t : Timer F). t.func) (take nr timers), drop nr timers)
