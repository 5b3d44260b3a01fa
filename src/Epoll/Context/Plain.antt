-- ===== src/Epoll/Context/Plain.antt =====
-- Notifiers that park no other one: whatever comes of them, the map and the interest list agree.
use vm_tools.Common.{
  ◌≡◌, ◌≢◌, refl, subst, sym, ◌⊎◌, inl, inr, arith, Bool-cases, none, Option-cases, List, [], ◌∷◌,
  ◌++◌, ◌==◌, bit_or, ok, err, panic, out_of_fuel,
}
use vm_tools.Common.Maps.{get}
use vm_tools.Epoll.Notifier.{
  alive, NotifierOperation, add_exclusion, add_shared, modify, delete, park_op, resume,
  EventNotifier,
}
use vm_tools.Epoll.System.{ctl_add, ctl_modify, Epoll}
use vm_tools.Epoll.Context.{
  EventLoopContext, Result, epoll_event, put, then_on, tick, is_add_exclusion, add_shared_event,
  park_then_insert, add_event, dispatch, update_events,
}
use vm_tools.Epoll.Context.Kernel.{Registry, IsInterestList}
use vm_tools.Epoll.Context.Cases.{ctl_then-cases}
use vm_tools.Epoll.Context.Synced.{IsSynced}
use vm_tools.Epoll.Context.Addition.{add_event-IsSynced}
use vm_tools.Epoll.Context.Updates.{dispatch_keeps_sync}

module _ {H : Type 0} where
  -- A new notifier that names no other one to park, or that is not to be added.
  abbrev pub IsPlain : EventNotifier H → Type 0
  IsPlain n =
      (n.status ≡ alive) × ((n.parked_fd ≡ none) ⊎ ((n.op ≢ add_exclusion) × (n.op ≢ add_shared)))

  abbrev pub AllPlain : List (EventNotifier H) → Type 0
  AllPlain [] = Unit
  AllPlain (n ∷ ns) = IsPlain n × AllPlain ns

  pub AllPlain-append :
      (ns more : List (EventNotifier H)) → AllPlain ns → AllPlain more → AllPlain (ns ++ more)
  AllPlain-append [] more a b = b
  AllPlain-append (n ∷ ns) more (first, rest) b = (first, AllPlain-append ns more rest b)

module _ {K H : Type 0} (e : Epoll K) where
  -- The operation succeeds, or changes nothing.
  abbrev AllOrNothing : EventLoopContext K H → Result (Unit {0}) × EventLoopContext K H → Type 0
  AllOrNothing c x = (x.0 ≡ ok tt) ⊎ (x.1 ≡ c)

  shared-AllOrNothing :
      (c : EventLoopContext K H) (n event : EventNotifier H)
      → AllOrNothing c (add_shared_event e c n event)
  unfolding add_shared_event
  shared-AllOrNothing c n event = elim (Bool-cases (is_add_exclusion event.op)) [
    | inl exclusive ↦ rw (exclusive, add_shared_event) (inr refl)
    | inr joins ↦ elim (Bool-cases (n.event == event.event)) [
      | inl same ↦ rw (joins, same, add_shared_event) (inl refl)
      | inr other ↦
          let merged = bit_or n.event event.event in
          let joined : EventNotifier H = record n {
            handlers = n.handlers ++ event.handlers;
            event = merged;
          } in
          rw (joins, other, add_shared_event)
            (ctl_then-cases e (AllOrNothing c) ctl_modify n.raw_fd
              (record { events = merged; data_ = n.addr }) c
              (λ c'. (ok tt, put event.raw_fd joined c')) (λ k q. inl refl) (λ x. inr refl))
    ]
  ]

  add_event-AllOrNothing :
      (c : EventLoopContext K H) (event : EventNotifier H)
      → event.parked_fd ≡ none
      → AllOrNothing c (add_event e c event)
  unfolding add_event park_then_insert
  add_event-AllOrNothing c event plain = elim (Option-cases (get event.raw_fd c.events)) [
    | inr (n, found) ↦ rw (found, add_event) (shared-AllOrNothing c n event)
    | inl new ↦
        rw (new, add_event)
          (ctl_then-cases e (AllOrNothing c) ctl_add event.raw_fd (epoll_event event) c
            (λ c'. park_then_insert e c' event) (λ k q. inl (simp (plain, park_then_insert) refl))
            (λ x. inr refl))
  ]

  module _ (registered : Registry K) (laws : IsInterestList e registered) where
    add_plain-IsSynced :
        (c : EventLoopContext K H) (event : EventNotifier H)
        → event.status ≡ alive
        → event.parked_fd ≡ none
        → IsSynced e registered c
        → IsSynced e registered (add_event e c event).1
    add_plain-IsSynced c event live plain s = elim (add_event-AllOrNothing c event plain) [
      | inl done ↦ add_event-IsSynced e registered laws c event live s done
      | inr same ↦ subst (λ d. IsSynced e registered d) (sym same) s
    ]

    plain-IsSynced :
        (op : NotifierOperation) (c : EventLoopContext K H) (en : EventNotifier H)
        → en.status ≡ alive
        → (en.parked_fd ≡ none) ⊎ ((op ≢ add_exclusion) × (op ≢ add_shared))
        → IsSynced e registered c
        → IsSynced e registered (dispatch e op c en).1
    unfolding dispatch
    plain-IsSynced op c en live (inr (p, q)) s = dispatch_keeps_sync e registered laws op c en p q s
    plain-IsSynced add_exclusion c en live (inl plain) s = add_plain-IsSynced c en live plain s
    plain-IsSynced add_shared c en live (inl plain) s = add_plain-IsSynced c en live plain s
    plain-IsSynced modify c en live (inl plain) s =
        dispatch_keeps_sync e registered laws modify c en (λ h. ground arith) (λ h. ground arith) s
    plain-IsSynced park_op c en live (inl plain) s =
        dispatch_keeps_sync e registered laws park_op c en (λ h. ground arith) (λ h. ground arith) s
    plain-IsSynced resume c en live (inl plain) s =
        dispatch_keeps_sync e registered laws resume c en (λ h. ground arith) (λ h. ground arith) s
    plain-IsSynced delete c en live (inl plain) s =
        dispatch_keeps_sync e registered laws delete c en (λ h. ground arith) (λ h. ground arith) s

    then_on-IsSynced :
        (x : Result (Unit {0}) × EventLoopContext K H)
        (next : EventLoopContext K H → Result (Unit {0}) × EventLoopContext K H)
        → IsSynced e registered x.1
        → (IsSynced e registered x.1 → IsSynced e registered (next x.1).1)
        → IsSynced e registered (then_on x next).1
    then_on-IsSynced (ok _, c) next s go = go s
    then_on-IsSynced (err x, c) next s go = s
    then_on-IsSynced (panic, c) next s go = s
    then_on-IsSynced (out_of_fuel, c) next s go = s

    -- Whatever `update_events` of such notifiers comes back with.
    pub updates-IsSynced :
        (c : EventLoopContext K H) (ns : List (EventNotifier H))
        → AllPlain ns
        → IsSynced e registered c
        → IsSynced e registered (update_events e c ns).1
    unfolding update_events tick
    updates-IsSynced c [] plain s = s
    updates-IsSynced c (en ∷ ns) ((live, first), rest) s =
        then_on-IsSynced (dispatch e en.op c en) (λ c'. update_events e c' ns)
          (plain-IsSynced en.op c en live first s)
          (λ s'. updates-IsSynced (dispatch e en.op c en).1 ns rest s')
