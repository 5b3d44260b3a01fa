-- ===== src/Epoll/System.antt =====
-- What the crate epoll uses of vmm_sys_util, nix and libc: the calls of epoll, and the wait for events.
use vm_tools.Common.{ℕ, List}
use vm_tools.Common.Int.{ℤ}
use vm_tools.UtilErrors.{IoError}

pub data ControlOperation : Type 0 where
  ctl_add : ControlOperation
  ctl_modify : ControlOperation
  ctl_delete : ControlOperation

-- `EpollEvent` of vmm_sys_util.
pub record EpollEvent : Type 0 where
  pub events : ℕ
  pub data_ : ℕ

-- A call that fails leaves the interest list as it is.
pub data CtlResult (K : Type 0) : Type 0 where
  done : K → CtlResult K
  failed : IoError → CtlResult K

-- What the context uses of vmm_sys_util and libc: the system's interest list is a `K`, and `event_in`
-- is `EventSet::IN`.
pub record Epoll (K : Type 0) : Type 0 where
  pub ctl : ControlOperation → ℕ → EpollEvent → K → CtlResult K
  pub ebadf : ℕ
  pub enoent : ℕ
  pub eperm : ℕ
  pub event_in : ℕ

-- `EpollEvent::default()`.
abbrev pub no_event : EpollEvent
no_event = record { events = 0; data_ = 0 }

-- What `ppoll` comes back with: a count that nobody reads, or the number of an error.
pub data PollResult : Type 0 where
  polled : PollResult
  poll_failed : ℕ → PollResult

-- What `Epoll::wait` comes back with: the events that it wrote to the buffer, or an error.
pub data WaitResult : Type 0 where
  ready : List EpollEvent → WaitResult
  wait_failed : IoError → WaitResult

-- The waits of a thread, over the interest list `K` and the rest of the world `W`, whose time goes on.
-- `ppoll` is given a time in nanoseconds; `wait` a time in milliseconds and the size of the buffer.
pub record Waits (K W : Type 0) : Type 0 where
  pub now : W → ℕ
  pub ppoll : ℕ → K → W → PollResult × W
  pub wait : ℤ → ℕ → K → W → WaitResult × W
  pub eintr : ℕ
