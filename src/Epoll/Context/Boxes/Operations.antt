-- ===== src/Epoll/Context/Boxes/Operations.antt =====
-- No operation drops a box, and each operation returns.
use vm_tools.Common.{
  ℕ, ◌≡◌, refl, inl, inr, Bool-cases, Option, none, some, Option-cases, List, [], ◌∷◌, ◌++◌, bit_or,
  ◌||◌, ◌==◌, ok, err, panic, out_of_fuel,
}
use vm_tools.Common.Maps.{get, insert}
use vm_tools.Epoll.Notifier.{
  alive, park, NotifierOperation, add_exclusion, add_shared, modify, delete, park_op, resume,
  EventNotifier, EventError, bad_syscall,
}
use vm_tools.Epoll.System.{
  ControlOperation, ctl_add, ctl_modify, ctl_delete, EpollEvent, Epoll, no_event,
}
use vm_tools.Epoll.Context.{
  EventLoopContext, Result, epoll_event, put, retire, then_on, tick, modify_event, is_alive,
  is_add_exclusion, add_shared_event, park_then_insert, add_event, park_event, resume_event, detach,
  unpark, rm_event, dispatch, update_events, ctl_then,
}
use vm_tools.Epoll.Context.Cases.{Ctl-cases, ctl_then-cases}
use vm_tools.Epoll.Context.Boxes.{
  Kept, Returns, HasNumbers, Kept-put, Kept-put_new, Kept-retire, insert-absent,
}

module _ {K H : Type 0} (a : ℕ) where
  -- An operation keeps the box at `a`, and returns.
  abbrev Fine : EventLoopContext K H → Result (Unit {0}) × EventLoopContext K H → Type 0
  Fine c x = (Kept a c → Kept a x.1) × Returns x.0

  modify-Fine : (c : EventLoopContext K H) (event : EventNotifier H) → Fine c (modify_event c event)
  unfolding modify_event
  modify-Fine c event = elim (Option-cases (get event.raw_fd c.events)) [
    | inl absent ↦ rw (absent, modify_event) (λ h. h, tt)
    | inr (n, found) ↦
        rw (found, modify_event)
          (Kept-put a event.raw_fd n (record n { handlers = event.handlers }) c found refl, tt)
  ]

  then_on-Fine :
      (c : EventLoopContext K H) (x : Result (Unit {0}) × EventLoopContext K H)
      (next : EventLoopContext K H → Result (Unit {0}) × EventLoopContext K H)
      → Fine c x
      → ((c' : EventLoopContext K H) → Fine c' (next c'))
      → Fine c (then_on x next)
  then_on-Fine c (ok _, c') next f g = (λ h. (g c').0 (f.0 h), (g c').1)
  then_on-Fine c (err x, c') next f g = f
  then_on-Fine c (panic, c') next f g = absurd f.1
  then_on-Fine c (out_of_fuel, c') next f g = absurd f.1

  module _ (e : Epoll K) where
    -- A call of the system, and then a write for a descriptor that has a notifier.
    ctl_put-Fine :
        (op : ControlOperation) (j : ℕ) (ev : EpollEvent) (fd : ℕ) (n n' : EventNotifier H)
        (c : EventLoopContext K H)
        → get fd c.events ≡ some n
        → n'.addr ≡ n.addr
        → Fine c (ctl_then e op j ev c (λ c'. (ok tt, put fd n' c')))
    ctl_put-Fine op j ev fd n n' c found same =
        ctl_then-cases e (Fine c) op j ev c (λ c'. (ok tt, put fd n' c'))
          (λ k q. (Kept-put a fd n n' c found same, tt)) (λ x. (λ h. h, tt))

    park-Fine : (c : EventLoopContext K H) (event : EventNotifier H) → Fine c (park_event e c event)
    unfolding park_event
    park-Fine c event = elim (Option-cases (get event.raw_fd c.events)) [
      | inl absent ↦ rw (absent, park_event) (λ h. h, tt)
      | inr (n, found) ↦
          rw (found, park_event)
            (ctl_put-Fine ctl_delete n.raw_fd no_event event.raw_fd n (record n { status = park }) c
              found refl)
    ]

    resume-Fine :
        (c : EventLoopContext K H) (event : EventNotifier H) → Fine c (resume_event e c event)
    unfolding resume_event
    resume-Fine c event = elim (Option-cases (get event.raw_fd c.events)) [
      | inl absent ↦ rw (absent, resume_event) (λ h. h, tt)
      | inr (n, found) ↦
          rw (found, resume_event)
            (ctl_put-Fine ctl_add n.raw_fd (epoll_event n) event.raw_fd n
              (record n { status = alive }) c found refl)
    ]

    unpark-Fine : (c : EventLoopContext K H) (o : Option ℕ) → Fine c (unpark e c o)
    unfolding unpark
    unpark-Fine c none = (λ h. h, tt)
    unpark-Fine c (some fd) = elim (Option-cases (get fd c.events)) [
      | inl absent ↦ rw (absent, unpark) (λ h. h, tt)
      | inr (n, found) ↦
          rw (found, unpark)
            (ctl_put-Fine ctl_add fd (epoll_event n) fd n (record n { status = alive }) c found
              refl)
    ]

    shared-Fine :
        (c : EventLoopContext K H) (n event : EventNotifier H)
        → get event.raw_fd c.events ≡ some n
        → Fine c (add_shared_event e c n event)
    unfolding add_shared_event
    shared-Fine c n event found = elim (Bool-cases (is_add_exclusion event.op)) [
      | inl exclusive ↦ rw (exclusive, add_shared_event) (λ h. h, tt)
      | inr shared ↦
          let merged = bit_or n.event event.event in
          let joined : EventNotifier H = record n { handlers = n.handlers ++ event.handlers } in
          elim (Bool-cases (n.event == event.event)) [
            | inl alike ↦
                rw (shared, alike, add_shared_event)
                  (Kept-put a event.raw_fd n joined c found refl, tt)
            | inr other ↦
                rw (shared, other, add_shared_event)
                  (ctl_put-Fine ctl_modify n.raw_fd (record { events = merged; data_ = n.addr })
                    event.raw_fd n (record joined { event = merged }) c found refl)
          ]
    ]

    insert-Fine :
        (c : EventLoopContext K H) (event : EventNotifier H)
        → get event.raw_fd c.events ≡ none
        → Fine c (park_then_insert e c event)
    unfolding park_then_insert
    insert-Fine c event absent = elim (Option-cases event.parked_fd) [
      | inl alone ↦ rw (alone, park_then_insert) (Kept-put_new a event.raw_fd event c absent, tt)
      | inr (fd, parking) ↦ elim (Option-cases (get fd c.events)) [
        | inl missing ↦ rw (parking, missing, park_then_insert) (λ h. h, tt)
        | inr (n, found) ↦
            let parked : EventNotifier H = record n { status = park } in
            let still : get event.raw_fd (insert fd parked c.events) ≡ none =
              insert-absent event.raw_fd fd parked n c.events absent found in
            rw (parking, found, park_then_insert)
              (ctl_then-cases e (Fine c) ctl_delete fd no_event c
                (λ c'. (ok tt, put event.raw_fd event (put fd parked c')))
                (λ k q. (
                  λ h.
                      Kept-put_new a event.raw_fd event (put fd parked c) still
                        (Kept-put a fd n parked c found refl h),
                  tt,
                ))
                (λ x. (λ h. h, tt)))
      ]
    ]

    add-Fine : (c : EventLoopContext K H) (event : EventNotifier H) → Fine c (add_event e c event)
    unfolding add_event
    add-Fine c event = elim (Option-cases (get event.raw_fd c.events)) [
      | inr (n, found) ↦ rw (found, add_event) (shared-Fine c n event found)
      | inl absent ↦
          rw (absent, add_event)
            (ctl_then-cases e (Fine c) ctl_add event.raw_fd (epoll_event event) c
              (λ c'. park_then_insert e c' event)
              (λ k q. insert-Fine (record c { epoll = k }) event absent) (λ x. (λ h. h, tt)))
    ]

    module _ (numbers : HasNumbers e) where
      -- The goal behind `detach`, and then `next`.
      detach_then-cases :
          (P : Result (Unit {0}) × EventLoopContext K H → Type 0) (c : EventLoopContext K H)
          (n : EventNotifier H)
          (next : EventLoopContext K H → Result (Unit {0}) × EventLoopContext K H)
          → ((k : K) → P (next (record c { epoll = k })))
          → ((x : EventError) → P (err x, c))
          → P (then_on (detach e c n) next)
      unfolding detach
      detach_then-cases P c n next good bad = elim (Bool-cases (is_alive n.status)) [
        | inr dead ↦ rw (dead, detach) (good c.epoll)
        | inl live ↦ elim (Ctl-cases (e.ctl ctl_delete n.raw_fd no_event c.epoll)) [
          | inl (k, q) ↦ rw (live, q, detach) (good k)
          | inr (x, q) ↦
              let (m, number) = numbers ctl_delete n.raw_fd no_event c.epoll x q in
              elim (Bool-cases ((m == e.ebadf) || (m == e.enoent) || (m == e.eperm))) [
                | inl gone ↦ rw (live, q, number, gone, detach) (good c.epoll)
                | inr other ↦ rw (live, q, number, other, detach) (bad (bad_syscall x))
              ]
        ]
      ]

      rm-Fine : (c : EventLoopContext K H) (event : EventNotifier H) → Fine c (rm_event e c event)
      unfolding rm_event
      rm-Fine c event = elim (Option-cases (get event.raw_fd c.events)) [
        | inl absent ↦ rw (absent, rm_event) (λ h. h, tt)
        | inr (n, found) ↦
            rw (found, rm_event)
              (detach_then-cases (Fine c) c n
                (λ c'. unpark e (retire event.raw_fd n c') n.parked_fd)
                (λ k.
                  let f =
                    unpark-Fine (retire event.raw_fd n (record c { epoll = k })) n.parked_fd in
                  (λ h. f.0 (Kept-retire a event.raw_fd n c found h), f.1))
                (λ x. (λ h. h, tt)))
      ]

      dispatch-Fine :
          (op : NotifierOperation) (c : EventLoopContext K H) (en : EventNotifier H)
          → Fine c (dispatch e op c en)
      unfolding dispatch
      dispatch-Fine add_exclusion c en = add-Fine c en
      dispatch-Fine add_shared c en = add-Fine c en
      dispatch-Fine modify c en = modify-Fine c en
      dispatch-Fine park_op c en = park-Fine c en
      dispatch-Fine resume c en = resume-Fine c en
      dispatch-Fine delete c en = rm-Fine c en

      updates-Fine :
          (c : EventLoopContext K H) (ns : List (EventNotifier H)) → Fine c (update_events e c ns)
      unfolding update_events tick
      updates-Fine c [] = (λ h. h, tt)
      updates-Fine c (en ∷ ns) =
          then_on-Fine c (dispatch e en.op c en) (λ c'. update_events e c' ns)
            (dispatch-Fine en.op c en) (λ c'. updates-Fine c' ns)

      -- `update_events` returns, and drops no box, whatever comes of its operations.
      pub update_events-Kept :
          (c : EventLoopContext K H) (ns : List (EventNotifier H))
          → Kept a c
          → Kept a (update_events e c ns).1 × Returns (update_events e c ns).0
      update_events-Kept c ns h = let f = updates-Fine c ns in (f.0 h, f.1)
