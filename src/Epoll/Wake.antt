-- ===== src/Epoll/Wake.antt =====
-- The flags `kicked` and `kick_me` and the descriptor `kick_event` of epoll/src/event_context.rs, as the
-- thread of a loop and the threads that call `timer_add` and `tick` share them. A step is one access;
-- the accesses are sequentially consistent. `timers` counts the timers added so far.
pub mod Invariant
use vm_tools.Common.{ℕ, suc, ◌+◌, ◌≡◌, Bool, true, false}

-- Where the thread of the loop stands: `seen` are the timers that it saw, `blocks` tells a wait that has
-- time to wait from one that comes back at once, and `need_kc` is the variable of the source.
pub data LoopAt : Type 0 where
  starting : LoopAt
  cleared : LoopAt
  timed : (seen : ℕ) (need_kc : Bool) → LoopAt
  marked : (seen : ℕ) → LoopAt
  waiting : (seen : ℕ) (blocks need_kc : Bool) → LoopAt
  woken : (need_kc : Bool) → LoopAt
  handling : LoopAt

-- Of the other threads, `ticking` are about to call `tick`, `storing` have stored `kicked` in it and
-- not yet read `kick_me`, and `writing` read it as set and are about to write.
pub record Shared : Type 0 where
  pub kicked : Bool
  pub kick_me : Bool
  pub kick_event : ℕ
  pub timers : ℕ
  pub ticking : ℕ
  pub storing : ℕ
  pub writing : ℕ

abbrev pub store_kicked : Bool → Shared → Shared
store_kicked v m = record m { kicked = v }

abbrev pub store_kick_me : Bool → Shared → Shared
store_kick_me v m = record m { kick_me = v }

-- The accesses of `timers_min_duration`.
pub data LookStep (m : Shared) : LoopAt → Shared → LoopAt → Type 0 where
  clear : LookStep m starting (store_kicked false m) cleared
  read_timers : (need_kc : Bool) → LookStep m cleared m (timed m.timers need_kc)

-- Those of `epoll_wait_manager`, up to the events that are ready.
pub data WaitStep (m : Shared) : LoopAt → Shared → LoopAt → Type 0 where
  no_wait : {n : ℕ} → WaitStep m (timed n false) m (waiting n false false)
  mark : {n : ℕ} → WaitStep m (timed n true) (store_kick_me true m) (marked n)
  was_kicked : {n : ℕ} → m.kicked ≡ true → WaitStep m (marked n) m (waiting n false true)
  not_kicked : {n : ℕ} → m.kicked ≡ false → WaitStep m (marked n) m (waiting n true true)
  wake : {n : ℕ} {b k : Bool} → WaitStep m (waiting n b k) m (woken k)
  unmark : WaitStep m (woken true) (store_kick_me false m) handling
  go_on : WaitStep m (woken false) m handling

-- Those of `tick`, by another thread.
pub data TickStep (m : Shared) : Shared → Type 0 where
  tick_stores :
      {t : ℕ}
      → m.ticking ≡ suc t
      → TickStep m (record (store_kicked true m) { ticking = t; storing = m.storing + 1 })
  tick_reads_false :
      {s : ℕ} → m.storing ≡ suc s → m.kick_me ≡ false → TickStep m (record m { storing = s })
  tick_reads_true :
      {s : ℕ}
      → m.storing ≡ suc s
      → m.kick_me ≡ true
      → TickStep m (record m { storing = s; writing = m.writing + 1 })
  tick_writes :
      {w : ℕ}
      → m.writing ≡ suc w
      → TickStep m (record m { writing = w; kick_event = m.kick_event + 1 })

-- Those ahead of a `tick`: the insertion of `timer_add`, or what `update_events` does.
pub data CallStep (m : Shared) : Shared → Type 0 where
  add_timer : CallStep m (record m { timers = m.timers + 1; ticking = m.ticking + 1 })
  update_events : CallStep m (record m { ticking = m.ticking + 1 })

-- An access, by the thread of the loop or by another one; between waits the loop may read
-- `kick_event` out, and starts again.
pub data Step (m : Shared) : LoopAt → Shared → LoopAt → Type 0 where
  looks : {m' : Shared} {l l' : LoopAt} → LookStep m l m' l' → Step m l m' l'
  waits : {m' : Shared} {l l' : LoopAt} → WaitStep m l m' l' → Step m l m' l'
  read_kick_event : Step m handling (record m { kick_event = 0 }) handling
  again : Step m handling m starting
  calls : {m' : Shared} {l : LoopAt} → CallStep m m' → Step m l m' l
  ticks : {m' : Shared} {l : LoopAt} → TickStep m m' → Step m l m' l

-- A new context: `kicked` and `kick_me` are false, and nothing was written.
abbrev pub first : Shared
first = record {
  kicked = false;
  kick_me = false;
  kick_event = 0;
  timers = 0;
  ticking = 0;
  storing = 0;
  writing = 0;
}

pub data Reach : Shared → LoopAt → Type 0 where
  start : Reach first starting
  later : {m m' : Shared} {l l' : LoopAt} → Reach m l → Step m l m' l' → Reach m' l'
