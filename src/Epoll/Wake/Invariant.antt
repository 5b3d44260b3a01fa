-- ===== src/Epoll/Wake/Invariant.antt =====
-- No timer is lost: a loop that waits has seen every timer that was added, or will be woken.
use vm_tools.Common.{
  ℕ, suc, ◌+◌, ◌<◌, ◌≡◌, ◌⊎◌, inl, inr, arith, Bool, true, false, Bool-cases, ◌||◌, ltb, ◌==◌,
}
use vm_tools.Epoll.Wake.{
  LoopAt, starting, cleared, timed, marked, waiting, woken, handling, Shared, LookStep, WaitStep,
  TickStep, CallStep, Step, looks, waits, calls, ticks, clear, read_timers, no_wait, mark,
  was_kicked, not_kicked, wake, unmark, go_on, read_kick_event, again, add_timer, update_events,
  tick_stores, tick_reads_false, tick_reads_true, tick_writes, Reach, start, later,
}

-- A loop that saw `n` timers saw them all, or a tick stands out, or was made since.
abbrev SawOrKicked : ℕ → Shared → Type 0
SawOrKicked n m = (n == m.timers) || ltb 0 m.ticking || m.kicked ≡ true

-- A loop that waits can be kicked, and if it was, the write is made or stands out.
pub record CanWake (n : ℕ) (m : Shared) : Type 0 where
  pub asks : m.kick_me ≡ true
  pub saw : SawOrKicked n m
  pub written : m.kicked ≡ true → 0 < m.storing + m.writing + m.kick_event

record Marked (n : ℕ) (m : Shared) : Type 0 where
  pub asks : m.kick_me ≡ true
  pub saw : SawOrKicked n m

abbrev Inv : LoopAt → Shared → Type 0
Inv (timed n k) m = SawOrKicked n m
Inv (marked n) m = Marked n m
Inv (waiting n true k) m = CanWake n m
Inv _ m = Unit

-- The writes that were made, or stand out.
abbrev on_the_way : Shared → ℕ
on_the_way m = m.storing + m.writing + m.kick_event

-- What another thread does keeps what the loop relies on.
record Keeps (m m' : Shared) : Type 0 where
  pub asks : m.kick_me ≡ true → m'.kick_me ≡ true
  pub saw : (n : ℕ) → SawOrKicked n m → SawOrKicked n m'
  pub written :
      m.kick_me ≡ true → (m.kicked ≡ true → 0 < on_the_way m) → m'.kicked ≡ true → 0 < on_the_way m'

Keeps-Inv : (l : LoopAt) (m m' : Shared) → Keeps m m' → Inv l m → Inv l m'
Keeps-Inv starting m m' k i = tt
Keeps-Inv cleared m m' k i = tt
Keeps-Inv (timed n need) m m' k i = k.saw n i
Keeps-Inv (marked n) m m' k i = record { asks = k.asks i.asks; saw = k.saw n i.saw }
Keeps-Inv (waiting n true need) m m' k i = record {
  asks = k.asks i.asks;
  saw = k.saw n i.saw;
  written = k.written i.asks i.written;
}
Keeps-Inv (waiting n false need) m m' k i = tt
Keeps-Inv (woken need) m m' k i = tt
Keeps-Inv handling m m' k i = tt

-- A step of another thread.
module _ (m : Shared) where
  added-Keeps : Keeps m (record m { timers = m.timers + 1; ticking = m.ticking + 1 })
  added-Keeps = record { asks = λ h. h; saw = λ n h. ground arith; written = λ a h. h }

  asked-Keeps : Keeps m (record m { ticking = m.ticking + 1 })
  asked-Keeps = record { asks = λ h. h; saw = λ n h. ground arith; written = λ a h. h }

  stored-Keeps :
      (t : ℕ) → Keeps m (record m { kicked = true; ticking = t; storing = m.storing + 1 })
  stored-Keeps t = record {
    asks = λ h. h;
    saw = λ n h. ground arith;
    written = λ a h k. omega arith;
  }

  passed-Keeps : (s : ℕ) → m.kick_me ≡ false → Keeps m (record m { storing = s })
  passed-Keeps s f = record { asks = λ h. h; saw = λ n h. h; written = λ a h k. ground arith }

  reads-Keeps :
      (s : ℕ) → m.storing ≡ suc s → Keeps m (record m { storing = s; writing = m.writing + 1 })
  reads-Keeps s e = record { asks = λ h. h; saw = λ n h. h; written = λ a h k. omega arith }

  writes-Keeps :
      (w : ℕ)
      → m.writing ≡ suc w
      → Keeps m (record m { writing = w; kick_event = m.kick_event + 1 })
  writes-Keeps w e = record { asks = λ h. h; saw = λ n h. h; written = λ a h k. omega arith }

LookStep-Inv : {m m' : Shared} {l l' : LoopAt} → LookStep m l m' l' → Inv l m → Inv l' m'
LookStep-Inv clear i = tt
LookStep-Inv (read_timers k) i = ground arith

WaitStep-Inv : {m m' : Shared} {l l' : LoopAt} → WaitStep m l m' l' → Inv l m → Inv l' m'
WaitStep-Inv no_wait i = tt
WaitStep-Inv mark i = ground arith
WaitStep-Inv (was_kicked h) i = tt
WaitStep-Inv (not_kicked h) i = ground arith
WaitStep-Inv wake i = tt
WaitStep-Inv unmark i = tt
WaitStep-Inv go_on i = tt

CallStep-Keeps : {m m' : Shared} → CallStep m m' → Keeps m m'
CallStep-Keeps {m} add_timer = added-Keeps m
CallStep-Keeps {m} update_events = asked-Keeps m

TickStep-Keeps : {m m' : Shared} → TickStep m m' → Keeps m m'
TickStep-Keeps {m} (tick_stores {t = t} h) = stored-Keeps m t
TickStep-Keeps {m} (tick_reads_false {s = s} h k) = passed-Keeps m s k
TickStep-Keeps {m} (tick_reads_true {s = s} h k) = reads-Keeps m s h
TickStep-Keeps {m} (tick_writes {w = w} h) = writes-Keeps m w h

Step-Inv : {m m' : Shared} {l l' : LoopAt} → Step m l m' l' → Inv l m → Inv l' m'
Step-Inv (looks st) i = LookStep-Inv st i
Step-Inv (waits st) i = WaitStep-Inv st i
Step-Inv read_kick_event i = tt
Step-Inv again i = tt
Step-Inv {m} {m'} {l = l} (calls st) i = Keeps-Inv l m m' (CallStep-Keeps st) i
Step-Inv {m} {m'} {l = l} (ticks st) i = Keeps-Inv l m m' (TickStep-Keeps st) i

Reach-Inv : {m : Shared} {l : LoopAt} → Reach m l → Inv l m
Reach-Inv start = tt
Reach-Inv (later r st) = Step-Inv st (Reach-Inv r)

-- In every state that is reached, if the loop waits with time to wait and no other thread is within
-- `timer_add` or `tick`, then it saw every timer that was added, or `kick_event` is readable, which ends
-- the wait.
pub no_lost_timer :
    (m : Shared) (n : ℕ) (k : Bool)
    → Reach m (waiting n true k)
    → m.ticking ≡ 0
    → m.storing ≡ 0
    → m.writing ≡ 0
    → (n ≡ m.timers) ⊎ (0 < m.kick_event)
no_lost_timer m n k r t s w =
    let i = Reach-Inv r in
    elim (Bool-cases m.kicked) [
      | inl was ↦ inr (omega (arith, i.written was))
      | inr not_yet ↦ inl (ground (arith, i.saw))
    ]
