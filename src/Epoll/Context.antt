-- ===== src/Epoll/Context.antt =====
-- `EventLoopContext` of epoll/src/event_context.rs: the map of the notifiers, and the operations on
-- it. An operation returns its result with the context that it leaves, on the error branches too.
pub mod Kernel
pub mod Cases
pub mod Synced
pub mod Boxes
pub mod Removal
pub mod Addition
pub mod Updates
pub mod Garbage
pub mod Parking
pub mod Plain
pub mod Gone
pub mod Start
use vm_tools.Common.{
  ℕ, zero, suc, ◌+◌, Bool, true, false, not, ◌||◌, bit_or, Option, none, some, List, [], ◌∷◌, ◌++◌,
  leb, ◌==◌, if◌then◌else◌, length, remove_at, Outcome, ok, err, panic, out_of_fuel,
}
use vm_tools.Common.Maps.{get, insert, remove}
use vm_tools.Epoll.Clock.{ClockState}
use vm_tools.Epoll.Timers.{Timer}
use vm_tools.Epoll.System.{
  ControlOperation, ctl_add, ctl_modify, ctl_delete, EpollEvent, CtlResult, done, failed, Epoll,
  no_event,
}
use vm_tools.Epoll.Notifier.{
  EventStatus, alive, park, removed, NotifierOperation, add_exclusion, add_shared, modify, delete,
  park_op, resume, EventNotifier, EventError, bad_notifier_operation, no_parked_fd, no_register_fd,
  bad_syscall, io,
}
use vm_tools.UtilErrors.{IoError}

-- `kicks` counts the writes to `kick_event`. `H` is the type of the program's own objects: the callbacks
-- of notifiers and timers, and the managers.
pub record EventLoopContext (K H : Type 0) : Type 0 where
  pub epoll : K
  pub kick_me : Bool
  pub kicked : Bool
  pub kicks : ℕ
  pub events : List (ℕ × EventNotifier H)
  pub gc : List (EventNotifier H)
  pub timers : List (Timer H)
  pub manager : Option H
  pub clock_state : ClockState

abbrev pub Result : Type 0 → Type 0
Result A = Outcome EventError A

abbrev pub is_add_exclusion : NotifierOperation → Bool
is_add_exclusion add_exclusion = true
is_add_exclusion _ = false

abbrev pub is_alive : EventStatus → Bool
is_alive alive = true
is_alive _ = false

module _ {H : Type 0} where
  abbrev pub epoll_event : EventNotifier H → EpollEvent
  epoll_event n = record { events = n.event; data_ = n.addr }

  -- The loop of `gc_clean`.
  unfoldable pub gc_loop : ℕ → ℕ → List (EventNotifier H) → Result (List (EventNotifier H))
  gc_loop zero pop_num gc = out_of_fuel
  gc_loop (suc fuel) pop_num gc =
      let rest = gc_loop fuel (pop_num + 1) (remove_at gc 0) in
      if leb (length gc) pop_num then ok gc else rest

module _ {K H : Type 0} where
  -- A write through `events_map.get_mut(&fd)`, and the insertion of a notifier.
  abbrev pub put : ℕ → EventNotifier H → EventLoopContext K H → EventLoopContext K H
  put fd n c = record c { events = insert fd n c.events }

  -- The notifier leaves the map for the list of those to drop.
  abbrev pub retire : ℕ → EventNotifier H → EventLoopContext K H → EventLoopContext K H
  retire fd n c = record c {
    events = remove fd c.events;
    gc = c.gc ++ record n { status = removed } ∷ [];
  }

  -- `call?`, and what comes behind it.
  abbrev pub then_on :
      Result (Unit {0}) × EventLoopContext K H
      → (EventLoopContext K H → Result (Unit {0}) × EventLoopContext K H)
      → Result (Unit {0}) × EventLoopContext K H
  then_on (ok _, c) next = next c
  then_on (err x, c) next = (err x, c)
  then_on (panic, c) next = (panic, c)
  then_on (out_of_fuel, c) next = (out_of_fuel, c)

  unfoldable pub tick : EventLoopContext K H → EventLoopContext K H
  tick c = record c { kicked = true; kicks = if c.kick_me then c.kicks + 1 else c.kicks }

  unfoldable pub modify_event :
      EventLoopContext K H → EventNotifier H → Result (Unit {0}) × EventLoopContext K H
  modify_event c event = elim (get event.raw_fd c.events) [
    | some notifier ↦ (ok tt, put event.raw_fd (record notifier { handlers = event.handlers }) c)
    | none ↦ (err (no_register_fd event.raw_fd), c)
  ]

  -- Each round takes a notifier out, so one more round than notifiers is enough.
  unfoldable pub gc_clean : EventLoopContext K H → Result (EventLoopContext K H)
  gc_clean c = elim (gc_loop (suc (length c.gc)) 0 c.gc) [
    | ok gc ↦ ok (record c { gc = gc })
    | err e ↦ err e
    | panic ↦ panic
    | out_of_fuel ↦ out_of_fuel
  ]

  module _ (e : Epoll K) where
    -- `self.epoll.ctl(…)?`, and what comes behind it.
    abbrev pub ctl_then :
        ControlOperation
        → ℕ
        → EpollEvent
        → EventLoopContext K H
        → (EventLoopContext K H → Result (Unit {0}) × EventLoopContext K H)
        → Result (Unit {0}) × EventLoopContext K H
    ctl_then op fd ev c next = elim (e.ctl op fd ev c.epoll) [
      | done k ↦ next (record c { epoll = k })
      | failed x ↦ (err (io x), c)
    ]

    -- The branch of `add_event` on a descriptor that has a notifier.
    unfoldable pub add_shared_event :
        EventLoopContext K H
        → EventNotifier H
        → EventNotifier H
        → Result (Unit {0}) × EventLoopContext K H
    add_shared_event c notifier event =
        let fd = event.raw_fd in
        let merged = bit_or notifier.event event.event in
        let joined : EventNotifier H = record notifier {
          handlers = notifier.handlers ++ event.handlers;
        } in
        if is_add_exclusion event.op
        then (err bad_notifier_operation, c)
        else (if notifier.event == event.event
            then (ok tt, put fd joined c)
            else ctl_then ctl_modify notifier.raw_fd
                (record { events = merged; data_ = notifier.addr }) c
                (λ c'. (ok tt, put fd (record joined { event = merged }) c')))

    -- `if let Some(parked_fd) = event.parked_fd { … }`, then the insertion.
    unfoldable pub park_then_insert :
        EventLoopContext K H → EventNotifier H → Result (Unit {0}) × EventLoopContext K H
    park_then_insert c event = elim event.parked_fd [
      | none ↦ (ok tt, put event.raw_fd event c)
      | some parked_fd ↦ elim (get parked_fd c.events) [
        | none ↦ (err (no_parked_fd parked_fd), c)
        | some parked ↦ ctl_then ctl_delete parked_fd no_event c (λ c'.
            (ok tt, put event.raw_fd event (put parked_fd (record parked { status = park }) c')))
      ]
    ]

    unfoldable pub add_event :
        EventLoopContext K H → EventNotifier H → Result (Unit {0}) × EventLoopContext K H
    add_event c event = elim (get event.raw_fd c.events) [
      | some notifier ↦ add_shared_event c notifier event
      | none ↦ ctl_then ctl_add event.raw_fd (epoll_event event) c (λ c'. park_then_insert c' event)
    ]

    unfoldable pub park_event :
        EventLoopContext K H → EventNotifier H → Result (Unit {0}) × EventLoopContext K H
    park_event c event = elim (get event.raw_fd c.events) [
      | none ↦ (err (no_register_fd event.raw_fd), c)
      | some notifier ↦
          ctl_then ctl_delete notifier.raw_fd no_event c
            (λ c'. (ok tt, put event.raw_fd (record notifier { status = park }) c'))
    ]

    unfoldable pub resume_event :
        EventLoopContext K H → EventNotifier H → Result (Unit {0}) × EventLoopContext K H
    resume_event c event = elim (get event.raw_fd c.events) [
      | none ↦ (err (no_register_fd event.raw_fd), c)
      | some notifier ↦
          ctl_then ctl_add notifier.raw_fd (epoll_event notifier) c
            (λ c'. (ok tt, put event.raw_fd (record notifier { status = alive }) c'))
    ]

    -- `rm_event` on a notifier that is alive: a descriptor that is gone is no error.
    unfoldable pub detach :
        EventLoopContext K H → EventNotifier H → Result (Unit {0}) × EventLoopContext K H
    detach c notifier = elim (is_alive notifier.status) [
      | false ↦ (ok tt, c)
      | true ↦ elim (e.ctl ctl_delete notifier.raw_fd no_event c.epoll) [
        | done k ↦ (ok tt, record c { epoll = k })
        | failed x ↦ elim x.raw_os_error [
          | none ↦ (panic, c)
          | some error_num ↦
              if (error_num == e.ebadf) || (error_num == e.enoent) || (error_num == e.eperm)
              then (ok tt, c)
              else (err (bad_syscall x), c)
        ]
      ]
    ]

    -- The notifier that the removed one had parked is added again.
    unfoldable pub unpark :
        EventLoopContext K H → Option ℕ → Result (Unit {0}) × EventLoopContext K H
    unpark c none = (ok tt, c)
    unpark c (some parked_fd) = elim (get parked_fd c.events) [
      | none ↦ (err (no_parked_fd parked_fd), c)
      | some parked ↦
          ctl_then ctl_add parked_fd (epoll_event parked) c
            (λ c'. (ok tt, put parked_fd (record parked { status = alive }) c'))
    ]

    unfoldable pub rm_event :
        EventLoopContext K H → EventNotifier H → Result (Unit {0}) × EventLoopContext K H
    rm_event c event = elim (get event.raw_fd c.events) [
      | none ↦ (err (no_register_fd event.raw_fd), c)
      | some notifier ↦
          then_on (detach c notifier)
            (λ c'. unpark (retire event.raw_fd notifier c') notifier.parked_fd)
    ]

    -- `match en.op { … }`.
    unfoldable pub dispatch :
        NotifierOperation
        → EventLoopContext K H
        → EventNotifier H
        → Result (Unit {0}) × EventLoopContext K H
    dispatch add_exclusion c en = add_event c en
    dispatch add_shared c en = add_event c en
    dispatch modify c en = modify_event c en
    dispatch park_op c en = park_event c en
    dispatch resume c en = resume_event c en
    dispatch delete c en = rm_event c en

    unfoldable pub update_events :
        EventLoopContext K H → List (EventNotifier H) → Result (Unit {0}) × EventLoopContext K H
    update_events c [] = (ok tt, tick c)
    update_events c (en ∷ notifiers) =
        then_on (dispatch en.op c en) (λ c'. update_events c' notifiers)
