-- ===== src/Epoll/Examples/Contexts.antt =====
-- The theorems on the event context, at contexts over a concrete interest list.
use vm_tools.Common.{
  ℕ, ◌≡◌, ◌≢◌, arith, refl, true, Option, none, some, List, [], ◌∷◌, ok, err, panic,
}
use vm_tools.Common.Maps.{get, insert, remove}
use vm_tools.Epoll.Notifier.{
  alive, NotifierOperation, add_exclusion, add_shared, delete, EventNotifier, no_parked_fd,
  new_notifier,
}
use vm_tools.Epoll.System.{ctl_add, done}
use vm_tools.Epoll.Context.{
  epoll_event, EventLoopContext, add_event, park_then_insert, dispatch, update_events, gc_clean,
}
use vm_tools.Epoll.Context.Synced.{IsSynced}
use vm_tools.Epoll.Context.Addition.{add_event_leaks}
use vm_tools.Epoll.Context.Updates.{update_events-IsSynced, dispatch_keeps_sync}
use vm_tools.Epoll.Context.Start.{blank, new, init_tick}
use vm_tools.Epoll.Context.Garbage.{gc_clean_lem}
use vm_tools.Epoll.Examples.InterestList.{Entries, entries, lookup, entries-IsInterestList}

abbrev pub Ctx : Type 0
Ctx = EventLoopContext Entries ℕ

abbrev pub notifier : NotifierOperation → ℕ → Option ℕ → ℕ → EventNotifier ℕ
notifier op fd parked addr = record {
  raw_fd = fd;
  op = op;
  parked_fd = parked;
  event = 1;
  handlers = fd ∷ [];
  handler_poll = none;
  status = alive;
  addr = addr;
}

-- A context at the time 50.
abbrev pub empty : Ctx
empty = record (blank [] 50) { kick_me = true }

pub empty-IsSynced : IsSynced entries lookup empty
unfolding get
empty-IsSynced = λ fd. refl

-- A notifier for 5, then one for 6 that parks it.
abbrev pub additions : List (EventNotifier ℕ)
additions = notifier add_exclusion 5 none 100 ∷ notifier add_exclusion 6 (some 5) 200 ∷ []

both_succeed : (update_events entries empty additions).0 ≡ ok tt
unfolding update_events dispatch add_event park_then_insert get insert remove
both_succeed = refl

update_events-IsSynced_example : IsSynced entries lookup (update_events entries empty additions).1
update_events-IsSynced_example =
    update_events-IsSynced entries lookup entries-IsInterestList empty additions (refl, (refl, tt))
      empty-IsSynced both_succeed

abbrev pub two : Ctx
two = (update_events entries empty additions).1

pub two-IsSynced : IsSynced entries lookup two
two-IsSynced =
    update_events-IsSynced entries lookup entries-IsInterestList empty additions (refl, (refl, tt))
      empty-IsSynced both_succeed

delete-add_exclusion : delete ≢ add_exclusion
delete-add_exclusion = λ h. ground arith

delete-add_shared : delete ≢ add_shared
delete-add_shared = λ h. ground arith

-- The one for 6 is removed, and that for 5 is registered again.
dispatch_keeps_sync_example :
    IsSynced entries lookup (dispatch entries delete two (notifier delete 6 none 0)).1
dispatch_keeps_sync_example =
    dispatch_keeps_sync entries lookup entries-IsInterestList delete two (notifier delete 6 none 0)
      delete-add_exclusion delete-add_shared two-IsSynced

-- The parked notifier that it names is missing.
abbrev orphan : EventNotifier ℕ
orphan = notifier add_exclusion 6 (some 5) 200

abbrev leaked : Entries
leaked = (6, epoll_event orphan) ∷ []

taken : entries.ctl ctl_add 6 (epoll_event orphan) [] ≡ done leaked
unfolding get insert remove
taken = refl

absent : (fd : ℕ) → get fd empty.events ≡ none
unfolding get
absent fd = refl

add_event_leaks_example :
    (add_event entries empty orphan ≡ (err (no_parked_fd 5), record empty { epoll = leaked }))
    × (lookup leaked 6 ≡ some (epoll_event orphan))
add_event_leaks_example =
    add_event_leaks entries lookup entries-IsInterestList empty orphan 5 leaked (absent 6) refl
      (absent 5) taken

abbrev littered : Ctx
littered = record empty {
  gc = notifier delete 5 none 0 ∷ notifier delete 6 none 0 ∷ notifier delete 7 none 0 ∷ [];
}

gc_clean_lem_example :
    gc_clean littered ≡ ok (record littered { gc = notifier delete 7 none 0 ∷ [] })
gc_clean_lem_example = gc_clean_lem littered

-- The notifier of `kick_event`, at the descriptor 3, with the callback 7.
abbrev kick : EventNotifier ℕ
kick = record (notifier add_exclusion 3 none 100) { handlers = 7 ∷ [] }

abbrev pub fresh : Ctx
fresh = record (blank [] 50) { epoll = (3, epoll_event kick) ∷ []; events = (3, kick) ∷ [] }

starts : new entries (some []) 50 (some 3) 7 100 ≡ ok fresh
unfolding new init_tick new_notifier add_event park_then_insert get insert remove
starts = refl

no_descriptor : new {H = ℕ} entries (some []) 50 none 7 100 ≡ panic
unfolding new
no_descriptor = refl
