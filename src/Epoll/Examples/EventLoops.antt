-- ===== src/Epoll/Examples/EventLoops.antt =====
-- The theorems on the event loop, and on a notifier that comes and goes, over a concrete system.
use Prim.Native.String.{String}
use vm_tools.Common.{
  ℕ, ◌+◌, ◌≡◌, ◌↔◌, refl, sym, ap, subst, some-inj, arith, inl, inr, Bool-cases, ◌==◌, false,
  Option, none, some, List, [], ◌∷◌, ok,
}
use vm_tools.Common.Maps.{get, insert, remove}
use vm_tools.Common.Names.{contains, find, set_name}
use vm_tools.Epoll.Notifier.{
  alive, delete, add_exclusion, new_notifier, EventNotifier, get_notifier_raw_fds,
  get_delete_notifiers,
}
use vm_tools.Epoll.Context.{
  epoll_event, add_event, park_then_insert, rm_event, detach, unpark, dispatch, tick, update_events,
}
use vm_tools.Epoll.Context.Synced.{IsSynced}
use vm_tools.Epoll.Context.Parking.Restored.{add_event-rm_event}
use vm_tools.Epoll.Context.Start.{new, init_tick}
use vm_tools.Epoll.EventLoop.{
  EventLoop, Host, new_context, add_contexts, fill_global, loop_init, get_ctx, write_ctx,
  set_loop_manager, update_event, register_event_helper, unregister_event_helper,
}
use vm_tools.Epoll.EventLoop.Contexts.{loop_init-IsSynced, loop_init-get_ctx}
use vm_tools.Epoll.EventLoop.Records.{register-unregister}
use vm_tools.Epoll.Context.Gone.{IsIn}
use vm_tools.Epoll.EventLoop.Others.{update_event-other}
use vm_tools.Epoll.Examples.InterestList.{Entries, entries, lookup, entries-IsInterestList}
use vm_tools.Epoll.Examples.Contexts.{Ctx, notifier, empty, fresh}

-- The system gives every context its own list, at the time 50. The world counts what was taken of it.
abbrev host : Host Entries ℕ ℕ
host = record {
  give = λ w. (
    record { interest_list = some []; now = 50; kick_fd = some 3; kick_handler = 7; addr = 100 },
    w + 1,
  );
  spawn = λ id w. (none, w + 1);
  key_order = λ ids. ids;
}

host-fresh :
    (w : ℕ) (k : Entries) (fd : ℕ) → (host.give w).0.interest_list ≡ some k → lookup k fd ≡ none
unfolding get
host-fresh w k fd h = subst (λ m. lookup m fd ≡ none) (some-inj [] k h) refl

abbrev threads : Option (List String)
threads = some ("io0" ∷ "io1" ∷ "io0" ∷ [])

abbrev event_loop : EventLoop Entries ℕ
event_loop = record { main_loop = fresh; io_thread = ("io0", fresh) ∷ ("io1", fresh) ∷ [] }

filled : (loop_init entries host threads none 0).1 ≡ some event_loop
unfolding loop_init add_contexts new_context fill_global new init_tick new_notifier add_event
    park_then_insert get insert remove set_name
filled = refl

io1_found : get_ctx (some event_loop) (some "io1") ≡ ok (some fresh)
unfolding get_ctx find
io1_found = refl

loop_init-IsSynced_example : IsSynced entries lookup fresh
loop_init-IsSynced_example =
    loop_init-IsSynced entries host lookup entries-IsInterestList host-fresh threads 0 event_loop
      (some "io1") fresh filled io1_found

loop_init-get_ctx_example :
    ((get_ctx (some event_loop) (some "io2") ≡ ok none)
      ↔ (contains "io2" ("io0" ∷ "io1" ∷ "io0" ∷ []) ≡ false))
    × ((loop_init entries host none (some event_loop) 9).1 ≡ some event_loop)
loop_init-get_ctx_example = loop_init-get_ctx entries host threads none 0 9 event_loop "io2" filled

abbrev for_io1 : List (EventNotifier ℕ)
for_io1 = notifier add_exclusion 5 none 200 ∷ notifier add_exclusion 6 none 300 ∷ []

abbrev registered : Option (EventLoop Entries ℕ)
registered = (register_event_helper entries (some event_loop) for_io1 (some "io1") []).1

registers :
    register_event_helper entries (some event_loop) for_io1 (some "io1") []
    ≡ (ok tt, registered, 5 ∷ 6 ∷ [])
unfolding register_event_helper update_event get_ctx write_ctx find set_name update_events dispatch
    add_event park_then_insert get insert remove get_notifier_raw_fds
registers = refl

abbrev left_over : Option (EventLoop Entries ℕ)
left_over = (unregister_event_helper entries registered (some "io1") (5 ∷ 6 ∷ [])).1

unregisters :
    unregister_event_helper entries registered (some "io1") (5 ∷ 6 ∷ []) ≡ (ok tt, left_over, [])
unfolding register_event_helper unregister_event_helper update_event get_ctx write_ctx find set_name
    update_events dispatch add_event park_then_insert get insert remove get_notifier_raw_fds
    get_delete_notifiers new_notifier rm_event detach unpark tick
unregisters = refl

abbrev after_all : Ctx
after_all =
    (update_events entries (update_events entries fresh for_io1).1
      (get_delete_notifiers 1 (5 ∷ 6 ∷ []))).1

io1_after : get_ctx left_over (some "io1") ≡ ok (some after_all)
unfolding register_event_helper unregister_event_helper update_event get_ctx write_ctx find set_name
    update_events dispatch add_event park_then_insert get insert remove get_notifier_raw_fds
    get_delete_notifiers new_notifier rm_event detach unpark tick
io1_after = refl

six_recorded : IsIn 6 (get_notifier_raw_fds for_io1)
unfolding get_notifier_raw_fds
six_recorded = inr (inl refl)

register-unregister_example : (get 6 after_all.events ≡ none) × (◌≡◌ {A = List ℕ} [] [])
register-unregister_example =
    register-unregister entries (some event_loop) registered registered left_over for_io1
      (some "io1") [] (5 ∷ 6 ∷ []) [] after_all 6 registers unregisters io1_after six_recorded

update_event-other_example :
    (get_ctx (update_event entries (some event_loop) for_io1 (some "io1")).1 none
      ≡ get_ctx (some event_loop) none)
    × (get_ctx (set_loop_manager (some event_loop) 8 (some "io1")).1 none
        ≡ get_ctx (some event_loop) none)
update_event-other_example =
    update_event-other entries for_io1 8 (some event_loop) (some "io1") none (λ h. ground arith)

-- The notifier of 5 is alive; one for 6 parks it, and is removed.
abbrev five : EventNotifier ℕ
five = notifier add_exclusion 5 none 100

abbrev one : Ctx
one = record empty { epoll = (5, epoll_event five) ∷ []; events = (5, five) ∷ [] }

abbrev six : EventNotifier ℕ
six = notifier add_exclusion 6 (some 5) 200

one-IsSynced : IsSynced entries lookup one
unfolding get
one-IsSynced =
    λ fd. elim (Bool-cases (fd == 5)) [ inl e ↦ rw (e) (ground arith, refl) | inr e ↦ rw (e) refl ]

six_new : get 6 one.events ≡ none
unfolding get
six_new = refl

five_lives :
    (p : ℕ) (n : EventNotifier ℕ)
    → six.parked_fd ≡ some p
    → get p one.events ≡ some n
    → n.status ≡ alive
unfolding get
five_lives p n h q =
    let eq : 5 ≡ p = some-inj 5 p h in
    let found : some five ≡ some n = subst (λ x. get x one.events ≡ some n) (sym eq) q in
    ap (λ x. x.status) (sym (some-inj five n found))

comes : (add_event entries one six).0 ≡ ok tt
unfolding add_event park_then_insert get insert remove
comes = refl

goes : (rm_event entries (add_event entries one six).1 (notifier delete 6 none 0)).0 ≡ ok tt
unfolding add_event park_then_insert get insert remove rm_event detach unpark
goes = refl

abbrev behind : Ctx
behind = (rm_event entries (add_event entries one six).1 (notifier delete 6 none 0)).1

add_event-rm_event_example :
    (get 5 behind.events ≡ get 5 one.events) × (lookup behind.epoll 5 ≡ lookup one.epoll 5)
add_event-rm_event_example =
    add_event-rm_event entries lookup entries-IsInterestList one six (notifier delete 6 none 0)
      one-IsSynced six_new refl five_lives refl comes goes 5
