-- ===== src/Epoll/Context/Updates.antt =====
-- `update_events`: a list of operations, carried out in turn as long as they succeed.
use vm_tools.Common.{◌≡◌, ◌≢◌, refl, arith, List, [], ◌∷◌, ok, err, panic, out_of_fuel}
use vm_tools.Epoll.Notifier.{
  alive, NotifierOperation, add_exclusion, add_shared, modify, delete, park_op, resume,
  EventNotifier,
}
use vm_tools.Epoll.System.{Epoll}
use vm_tools.Epoll.Context.{EventLoopContext, Result, tick, then_on, dispatch, update_events}
use vm_tools.Epoll.Context.Kernel.{Registry, IsInterestList}
use vm_tools.Epoll.Context.Synced.{IsSynced, park_event-IsSynced, resume_event-IsSynced}
use vm_tools.Epoll.Context.Removal.{rm_event-IsSynced}
use vm_tools.Epoll.Context.Addition.{SyncedIfOk, add_event-IsSynced, modify_event-IsSynced}

module _ {H : Type 0} where
  -- The notifiers are new: each one is alive.
  abbrev pub AllAlive : List (EventNotifier H) → Type 0
  AllAlive [] = Unit
  AllAlive (n ∷ ns) = (n.status ≡ alive) × AllAlive ns

module _ {K H : Type 0} (e : Epoll K) (registered : Registry K) where
  then_on-SyncedIfOk :
      (x : Result (Unit {0}) × EventLoopContext K H)
      (next : EventLoopContext K H → Result (Unit {0}) × EventLoopContext K H)
      → (x.0 ≡ ok tt → SyncedIfOk e registered (next x.1))
      → SyncedIfOk e registered (then_on x next)
  then_on-SyncedIfOk (ok _, c) next good = good refl
  then_on-SyncedIfOk (err x, c) next good = λ h. ground arith
  then_on-SyncedIfOk (panic, c) next good = λ h. ground arith
  then_on-SyncedIfOk (out_of_fuel, c) next good = λ h. ground arith

  module _ (laws : IsInterestList e registered) where
    dispatch-IsSynced :
        (op : NotifierOperation) (c : EventLoopContext K H) (en : EventNotifier H)
        → en.status ≡ alive
        → IsSynced e registered c
        → (dispatch e op c en).0 ≡ ok tt
        → IsSynced e registered (dispatch e op c en).1
    unfolding dispatch
    dispatch-IsSynced add_exclusion c en live s h =
        add_event-IsSynced e registered laws c en live s h
    dispatch-IsSynced add_shared c en live s h = add_event-IsSynced e registered laws c en live s h
    dispatch-IsSynced modify c en live s h = modify_event-IsSynced e registered c en s
    dispatch-IsSynced park_op c en live s h = park_event-IsSynced e registered laws c en s
    dispatch-IsSynced resume c en live s h = resume_event-IsSynced e registered laws c en s
    dispatch-IsSynced delete c en live s h = rm_event-IsSynced e registered laws c en s

    -- Whatever comes of an operation other than an addition, the map and the interest list agree behind
    -- it, as they did before.
    pub dispatch_keeps_sync :
        (op : NotifierOperation) (c : EventLoopContext K H) (en : EventNotifier H)
        → op ≢ add_exclusion
        → op ≢ add_shared
        → IsSynced e registered c
        → IsSynced e registered (dispatch e op c en).1
    unfolding dispatch
    dispatch_keeps_sync add_exclusion c en p q s = absurd (p refl)
    dispatch_keeps_sync add_shared c en p q s = absurd (q refl)
    dispatch_keeps_sync modify c en p q s = modify_event-IsSynced e registered c en s
    dispatch_keeps_sync park_op c en p q s = park_event-IsSynced e registered laws c en s
    dispatch_keeps_sync resume c en p q s = resume_event-IsSynced e registered laws c en s
    dispatch_keeps_sync delete c en p q s = rm_event-IsSynced e registered laws c en s

    updates-SyncedIfOk :
        (ns : List (EventNotifier H)) (c : EventLoopContext K H)
        → AllAlive ns
        → IsSynced e registered c
        → SyncedIfOk e registered (update_events e c ns)
    unfolding update_events tick
    updates-SyncedIfOk [] c live s = λ _. s
    updates-SyncedIfOk (en ∷ ns) c live s =
        then_on-SyncedIfOk (dispatch e en.op c en) (λ c'. update_events e c' ns)
          (λ h.
            updates-SyncedIfOk ns (dispatch e en.op c en).1 live.1
              (dispatch-IsSynced en.op c en live.0 s h))

    -- If `update_events` of notifiers that are alive succeeds, the map and the interest list agree
    -- behind it, as they did before.
    pub update_events-IsSynced :
        (c : EventLoopContext K H) (ns : List (EventNotifier H))
        → AllAlive ns
        → IsSynced e registered c
        → (update_events e c ns).0 ≡ ok tt
        → IsSynced e registered (update_events e c ns).1
    update_events-IsSynced c ns live s h = updates-SyncedIfOk ns c live s h
