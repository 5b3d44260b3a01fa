-- ===== src/Epoll/Context/Gone.antt =====
-- What removals leave of the map of the notifiers.
use vm_tools.Common.{
  not-none-some, ℕ, ◌≡◌, refl, sym, ◌∙◌, ap, arith, inl, inr, ◌⊎◌, Bool-cases, Option, none, some,
  Option-cases, List, [], ◌∷◌, ◌==◌, ok, err,
}
use vm_tools.Common.Maps.{get, get-insert, get-remove}
use vm_tools.Epoll.Notifier.{
  alive, EventNotifier, no_register_fd, delete, new_notifier, get_delete_notifiers,
}
use vm_tools.Epoll.System.{Epoll, ctl_add}
use vm_tools.Epoll.Context.{
  EventLoopContext, Result, put, retire, detach, unpark, rm_event, dispatch, update_events,
  epoll_event, tick,
}
use vm_tools.Epoll.Context.Cases.{ctl_then-cases, then_on-ok, detach-events}

abbrev pub IsIn : ℕ → List ℕ → Type 0
IsIn fd [] = ⊥
IsIn fd (k ∷ fds) = (fd ≡ k) ⊎ IsIn fd fds

module _ {K H : Type 0} where
  -- No key of the map is new: one that had no notifier has none.
  abbrev NoneNew : EventLoopContext K H → EventLoopContext K H → Type 0
  NoneNew c c' = (i : ℕ) → get i c.events ≡ none → get i c'.events ≡ none

  put-NoneNew :
      (fd : ℕ) (old n : EventNotifier H) (c : EventLoopContext K H)
      → get fd c.events ≡ some old
      → NoneNew c (put fd n c)
  put-NoneNew fd old n c found i absent = elim (Bool-cases (i == fd)) [
    | inl e ↦
        let same : i ≡ fd = ground arith in absurd (not-none-some old (sym absent ∙ rw same found))
    | inr e ↦ rw (get-insert i fd n c.events, e) absent
  ]

  retire-NoneNew :
      (fd : ℕ) (n : EventNotifier H) (c : EventLoopContext K H)
      → NoneNew c (retire fd n c) × (get fd (retire fd n c).events ≡ none)
  retire-NoneNew fd n c = (
    λ i absent. elim (Bool-cases (i == fd)) [
      | inl e ↦ rw (get-remove i fd c.events, e) refl
      | inr e ↦ rw (get-remove i fd c.events, e) absent
    ],
    ground (arith, get-remove fd fd c.events),
  )

  module _ (e : Epoll K) where
    unpark-NoneNew : (c : EventLoopContext K H) (o : Option ℕ) → NoneNew c (unpark e c o).1
    unfolding unpark
    unpark-NoneNew c none i absent = absent
    unpark-NoneNew c (some fd) i absent = elim (Option-cases (get fd c.events)) [
      | inl missing ↦ rw (missing, unpark) absent
      | inr (n, found) ↦
          rw (found, unpark)
            (ctl_then-cases e (λ x. get i x.1.events ≡ none) ctl_add fd (epoll_event n) c
              (λ c'. (ok tt, put fd (record n { status = alive }) c'))
              (λ k q. put-NoneNew fd n (record n { status = alive }) c found i absent)
              (λ x. absent))
    ]

    -- A removal that succeeds leaves no notifier for its descriptor, and makes none.
    rm_event-gone :
        (c : EventLoopContext K H) (event : EventNotifier H)
        → (rm_event e c event).0 ≡ ok tt
        → NoneNew c (rm_event e c event).1 × (get event.raw_fd (rm_event e c event).1.events ≡ none)
    unfolding rm_event
    rm_event-gone c event h = elim (Option-cases (get event.raw_fd c.events)) [
      | inl missing ↦
          let bad : err (no_register_fd event.raw_fd) ≡ ok tt = rw (missing, rm_event) at h in
          absurd (ground arith)
      | inr (n, found) ↦
          let fd = event.raw_fd in
          let c' = (detach e c n).1 in
          let next : EventLoopContext K H → Result (Unit {0}) × EventLoopContext K H =
            λ d. unpark e (retire fd n d) n.parked_fd in
          let (_, same) = then_on-ok (detach e c n) next (rw (found, rm_event) at h) in
          let (kept, gone) = retire-NoneNew fd n c' in
          let still = unpark-NoneNew (retire fd n c') n.parked_fd in
          rw (found, same, rm_event)
            (λ i absent. still i (kept i (rw (detach-events e c n) absent)), still fd gone)
    ]

    -- So do removals of a list of descriptors, in the way that `unregister_event_helper` asks for them.
    pub deletes-gone :
        (fds : List ℕ) (c : EventLoopContext K H)
        → (update_events e c (get_delete_notifiers e.event_in fds)).0 ≡ ok tt
        → NoneNew c (update_events e c (get_delete_notifiers e.event_in fds)).1
          × ((fd : ℕ)
              → IsIn fd fds
              → get fd (update_events e c (get_delete_notifiers e.event_in fds)).1.events ≡ none)
    unfolding update_events get_delete_notifiers new_notifier dispatch tick
    deletes-gone [] c h = (λ i absent. absent, λ fd no. absurd no)
    deletes-gone (fd ∷ fds) c h =
        let event : EventNotifier H = new_notifier delete fd none e.event_in [] 0 in
        let x = rm_event e c event in
        let next : EventLoopContext K H → Result (Unit {0}) × EventLoopContext K H =
          λ d. update_events e d (get_delete_notifiers e.event_in fds) in
        let (done, same) = then_on-ok x next h in
        let (kept, gone) = rm_event-gone c event done in
        let (kept', gone') = deletes-gone fds x.1 (ap (λ y. y.0) (sym same) ∙ h) in
        (
          λ i absent. rw same (kept' i (kept i absent)),
          λ i isin. elim isin [
            | inl q ↦ rw (same, q) (kept' fd gone)
            | inr more ↦ rw same (gone' i more)
          ],
        )
