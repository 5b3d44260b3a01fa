-- ===== src/Epoll/Notifier.antt =====
-- `EventNotifier` of epoll/src/event_notifier.rs, with the errors of epoll/src/utils.rs.
-- A descriptor is the bit pattern of its `RawFd`, and a set of events that of its `EventSet`.
use vm_tools.UtilErrors.{IoError}
use vm_tools.Common.{ℕ, Option, none, List, [], ◌∷◌}

pub data EventStatus : Type 0 where
  alive : EventStatus
  park : EventStatus
  removed : EventStatus

pub data NotifierOperation : Type 0 where
  add_exclusion : NotifierOperation
  add_shared : NotifierOperation
  modify : NotifierOperation
  delete : NotifierOperation
  park_op : NotifierOperation
  resume : NotifierOperation

-- `H` is the type of the callbacks. `addr` is the address of the box that a context keeps the
-- notifier in, which the allocator chooses.
pub record EventNotifier (H : Type 0) : Type 0 where
  pub raw_fd : ℕ
  pub op : NotifierOperation
  pub parked_fd : Option ℕ
  pub event : ℕ
  pub handlers : List H
  pub handler_poll : Option H
  pub status : EventStatus
  pub addr : ℕ

-- What an operation fails with: a `UtilError`, or an `io::Error` passed on.
pub data EventError : Type 0 where
  bad_notifier_operation : EventError
  no_parked_fd : ℕ → EventError
  no_register_fd : ℕ → EventError
  bad_syscall : IoError → EventError
  io : IoError → EventError
  epoll_wait : IoError → EventError

module _ {H : Type 0} where
  unfoldable pub new_notifier : NotifierOperation → ℕ → Option ℕ → ℕ → List H → ℕ → EventNotifier H
  new_notifier op raw_fd parked_fd event handlers addr = record {
    raw_fd = raw_fd;
    op = op;
    parked_fd = parked_fd;
    event = event;
    handlers = handlers;
    handler_poll = none;
    status = alive;
    addr = addr;
  }

  unfoldable pub get_notifier_raw_fds : List (EventNotifier H) → List ℕ
  get_notifier_raw_fds [] = []
  get_notifier_raw_fds (n ∷ notifiers) = n.raw_fd ∷ get_notifier_raw_fds notifiers

  -- `event_in` is `EventSet::IN`. The notifiers come to no box: their address is nowhere read.
  unfoldable pub get_delete_notifiers : ℕ → List ℕ → List (EventNotifier H)
  get_delete_notifiers event_in [] = []
  get_delete_notifiers event_in (fd ∷ raw_fds) =
      new_notifier delete fd none event_in [] 0 ∷ get_delete_notifiers event_in raw_fds
