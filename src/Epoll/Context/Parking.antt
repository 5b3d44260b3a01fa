-- ===== src/Epoll/Context/Parking.antt =====
-- The map behind `add_event` of a notifier that parks another one, and behind its `rm_event`.
pub mod Restored
use vm_tools.Common.{
  ℕ, ◌≡◌, refl, sym, subst, ◌∙◌, ap, arith, inl, inr, Bool-cases, true, false, Option, none, some,
  Option-cases, List, ◌==◌, if◌then◌else◌, ok, err, panic, out_of_fuel,
}
use vm_tools.Common.Maps.{get, get-insert, get-remove}
use vm_tools.Epoll.Notifier.{EventStatus, alive, park, EventNotifier, io, no_parked_fd}
use vm_tools.Epoll.System.{ControlOperation, ctl_add, ctl_delete, EpollEvent, Epoll, no_event}
use vm_tools.Epoll.Context.{
  EventLoopContext, Result, epoll_event, put, retire, ctl_then, park_then_insert, add_event, detach,
  unpark, rm_event,
}
use vm_tools.Epoll.Context.Kernel.{Registry, IsInterestList}
use vm_tools.Epoll.Context.Synced.{IsSynced, Agree, entry}
use vm_tools.Epoll.Context.Addition.{add_event-IsSynced}
use vm_tools.Epoll.Context.Removal.{rm_event-IsSynced}
use vm_tools.Epoll.Context.Cases.{Ctl-cases, then_on-ok, detach-events}

module _ {K H : Type 0} (e : Epoll K) where
  ctl_then-ok :
      (op : ControlOperation) (fd : ℕ) (ev : EpollEvent) (c : EventLoopContext K H)
      (next : EventLoopContext K H → Result (Unit {0}) × EventLoopContext K H)
      → (ctl_then e op fd ev c next).0 ≡ ok tt
      → (k : K) × (ctl_then e op fd ev c next ≡ next (record c { epoll = k }))
  ctl_then-ok op fd ev c next h = elim (Ctl-cases (e.ctl op fd ev c.epoll)) [
    | inl (k, q) ↦ (k, rw (q, ctl_then) refl)
    | inr (x, q) ↦ let bad : err (io x) ≡ ok tt = rw (q, ctl_then) at h in absurd (ground arith)
  ]

  -- The map behind an addition for `fd`: the new notifier, and the one that it parks.
  abbrev pub Added :
      EventNotifier H → Option ℕ → List (ℕ × EventNotifier H) → List (ℕ × EventNotifier H) → Type 0
  Added event none m m' = (i : ℕ) → get i m' ≡ (if i == event.raw_fd then some event else get i m)
  Added event (some p) m m' =
      (n : EventNotifier H) × (get p m ≡ some n)
      × ((i : ℕ)
          → get i m' ≡ (
              if i == event.raw_fd
              then some event
              else (if i == p then some (record n { status = park }) else get i m)))

  park_then_insert-Added :
      (c : EventLoopContext K H) (event : EventNotifier H)
      → (park_then_insert e c event).0 ≡ ok tt
      → Added event event.parked_fd c.events (park_then_insert e c event).1.events
  unfolding park_then_insert
  park_then_insert-Added c event h = elim (Option-cases event.parked_fd) [
    | inl alone ↦ simp (alone, park_then_insert) (λ i. get-insert i event.raw_fd event c.events)
    | inr (p, parks) ↦ elim (Option-cases (get p c.events)) [
      | inl missing ↦
          let bad : err (no_parked_fd p) ≡ ok tt = rw (parks, missing, park_then_insert) at h in
          absurd (ground arith)
      | inr (n, found) ↦
          let parked : EventNotifier H = record n { status = park } in
          let next : EventLoopContext K H → Result (Unit {0}) × EventLoopContext K H =
            λ d. (ok tt, put event.raw_fd event (put p parked d)) in
          let (k, same) =
            ctl_then-ok ctl_delete p no_event c next (rw (parks, found, park_then_insert) at h) in
          simp (parks, found, same, park_then_insert)
            (
              n,
              refl,
              λ i.
                  rw
                    (
                      get-insert i event.raw_fd event (put p parked c).events,
                      get-insert i p parked c.events,
                    )
                    refl,
            )
    ]
  ]

  pub add_event-Added :
      (c : EventLoopContext K H) (event : EventNotifier H)
      → get event.raw_fd c.events ≡ none
      → (add_event e c event).0 ≡ ok tt
      → Added event event.parked_fd c.events (add_event e c event).1.events
  unfolding add_event
  add_event-Added c event new h =
      let next : EventLoopContext K H → Result (Unit {0}) × EventLoopContext K H =
        λ d. park_then_insert e d event in
      let (k, same) =
        ctl_then-ok ctl_add event.raw_fd (epoll_event event) c next (rw (new, add_event) at h) in
      rw (new, same, add_event)
        (park_then_insert-Added (record c { epoll = k }) event
          (rw same at (rw (new, add_event) at h)))

  -- The map behind a removal of `fd`: without the notifier, and with the one that it had parked.
  abbrev pub Taken : ℕ → Option ℕ → List (ℕ × EventNotifier H) → List (ℕ × EventNotifier H) → Type 0
  Taken fd none m m' = (i : ℕ) → get i m' ≡ (if i == fd then none else get i m)
  Taken fd (some p) m m' =
      (n : EventNotifier H) × ((if p == fd then none else get p m) ≡ some n)
      × ((i : ℕ)
          → get i m' ≡ (
              if i == p
              then some (record n { status = alive })
              else (if i == fd then none else get i m)))

  unpark-Taken :
      (fd : ℕ) (o : Option ℕ) (n : EventNotifier H) (c : EventLoopContext K H)
      → (unpark e (retire fd n c) o).0 ≡ ok tt
      → Taken fd o c.events (unpark e (retire fd n c) o).1.events
  unfolding unpark
  unpark-Taken fd none n c h = λ i. get-remove i fd c.events
  unpark-Taken fd (some p) n c h =
      let d = retire fd n c in
      elim (Option-cases (get p d.events)) [
        | inl missing ↦
            let bad : err (no_parked_fd p) ≡ ok tt = rw (missing, unpark) at h in
            absurd (ground arith)
        | inr (m, found) ↦
            let resumed : EventNotifier H = record m { status = alive } in
            let next : EventLoopContext K H → Result (Unit {0}) × EventLoopContext K H =
              λ x. (ok tt, put p resumed x) in
            let (k, same) =
              ctl_then-ok ctl_add p (epoll_event m) d next (rw (found, unpark) at h) in
            simp (found, same, unpark)
              (
                m,
                sym (get-remove p fd c.events) ∙ found,
                λ i. rw (get-insert i p resumed d.events, get-remove i fd c.events) refl,
              )
      ]

  pub rm_event-Taken :
      (c : EventLoopContext K H) (event n : EventNotifier H)
      → get event.raw_fd c.events ≡ some n
      → (rm_event e c event).0 ≡ ok tt
      → Taken event.raw_fd n.parked_fd c.events (rm_event e c event).1.events
  unfolding rm_event
  rm_event-Taken c event n found h =
      let fd = event.raw_fd in
      let next : EventLoopContext K H → Result (Unit {0}) × EventLoopContext K H =
        λ d. unpark e (retire fd n d) n.parked_fd in
      let h' = rw (found, rm_event) at h in
      let (_, same) = then_on-ok (detach e c n) next h' in
      let taken = unpark-Taken fd n.parked_fd n (detach e c n).1 (rw same at h') in
      rw (found, same, rm_event)
        (subst (λ m. Taken fd n.parked_fd m (next (detach e c n).1).1.events) (detach-events e c n)
          taken)
