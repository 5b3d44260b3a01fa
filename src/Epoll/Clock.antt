-- ===== src/Epoll/Clock.antt =====
-- `ClockState` of epoll/src/timer.rs. `offset.elapsed()` stops at 0, and the subtraction of two
-- durations panics below 0.
use vm_tools.Common.{
  ℕ, ◌+◌, ◌-◌, ◌≤◌, ◌≡◌, ◌↔◌, arith, Bool, true, false, ltb, if◌then◌else◌, Outcome, ok, panic,
  ◌>>=◌,
}

pub record ClockState : Type 0 where
  pub enabled : Bool
  pub offset : ℕ
  pub paused : ℕ
  pub elapsed : ℕ

-- Nothing here makes an error value: a result or a panic.
abbrev pub Checked : Type 0 → Type 0
Checked A = Outcome (Unit {0}) A

-- `a - b` of two durations.
abbrev pub sub_duration : ℕ → ℕ → Checked ℕ
sub_duration a b = if ltb a b then panic else ok (a - b)

-- `self.offset.elapsed()`.
abbrev pub since_offset : ClockState → ℕ → ℕ
since_offset s now = now - s.offset

unfoldable pub default : ℕ → ClockState
default now = record { enabled = false; offset = now; paused = 0; elapsed = 0 }

unfoldable pub get_virtual_clock : ClockState → ℕ → Checked ℕ
get_virtual_clock s now =
    if s.enabled then sub_duration (since_offset s now) s.elapsed else ok s.elapsed

unfoldable pub enable : ClockState → ℕ → Checked ClockState
enable s now = do
  elapsed ← sub_duration (since_offset s now) s.paused
  ok (record s { elapsed = elapsed; enabled = true })

unfoldable pub disable : ClockState → ℕ → Checked ClockState
disable s now = do
  paused ← sub_duration (since_offset s now) s.elapsed
  ok (record s { paused = paused; enabled = false })

-- A clock that is enabled at `now`, with `paused` within the time since its offset, goes on from
-- `paused`: at a later time it reads `paused` and the time since.
pub enable-reading :
    (s : ClockState) (now later : ℕ)
    → s.offset ≤ now
    → s.paused ≤ now - s.offset
    → now ≤ later
    → (enable s now >>= λ s'. get_virtual_clock s' later) ≡ ok (s.paused + (later - now))
unfolding enable get_virtual_clock
enable-reading s now later h p q = ground arith

-- Time in which the clock is disabled is left out: disabled at `t` and enabled again at `u`, a running
-- clock reads at `w` what it read at `t` and the time since `u`.
pub disable-enable-reading :
    (s : ClockState) (t u w r : ℕ)
    → s.enabled ≡ true
    → s.offset ≤ t
    → t ≤ u
    → u ≤ w
    → get_virtual_clock s t ≡ ok r
    → (disable s t >>= λ s'. enable s' u >>= λ s''. get_virtual_clock s'' w) ≡ ok (r + (w - u))
unfolding enable disable get_virtual_clock
disable-enable-reading s t u w r on h p q e = ground arith

-- A running clock that is disabled keeps its reading `r` in `paused`, and nothing else changes but the
-- flag; at any later time it reads `elapsed` all the same, which is `r` only if it happens to be.
pub disable-reading :
    (s : ClockState) (t later r : ℕ)
    → s.enabled ≡ true
    → get_virtual_clock s t ≡ ok r
    → (disable s t ≡ ok (record s { paused = r; enabled = false }))
      × ((disable s t >>= λ s'. get_virtual_clock s' later) ≡ ok s.elapsed)
      × (((disable s t >>= λ s'. get_virtual_clock s' later) ≡ ok r) ↔ (s.elapsed ≡ r))
unfolding disable get_virtual_clock
disable-reading s t later r on e = (ground arith, ground arith, ground arith)
