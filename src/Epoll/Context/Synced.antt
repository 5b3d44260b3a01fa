-- ===== src/Epoll/Context/Synced.antt =====
-- The map of the notifiers and the system's interest list agree: a notifier that is alive is
-- registered with its events and the address of its box, and nothing else is registered.
use vm_tools.Common.{
  ℕ, ◌≡◌, refl, subst, inl, inr, arith, Bool-cases, Option, none, some, Option-cases, ◌==◌,
  if◌then◌else◌, ok,
}
use vm_tools.Common.Maps.{get, get-insert}
use vm_tools.Epoll.Notifier.{EventStatus, alive, park, removed, EventNotifier}
use vm_tools.Epoll.System.{ctl_add, ctl_delete, EpollEvent, Epoll, no_event}
use vm_tools.Epoll.Context.{EventLoopContext, epoll_event, put, park_event, resume_event}
use vm_tools.Epoll.Context.Cases.{ctl_then-cases}
use vm_tools.Epoll.Context.Kernel.{Registry, IsInterestList}

-- What is registered for a notifier of that status.
abbrev pub entry : EventStatus → EpollEvent → Option EpollEvent
entry alive ev = some ev
entry park ev = none
entry removed ev = none

module _ {H : Type 0} where
  -- The notifier of `fd`, if there is one, and the entry of the interest list.
  abbrev pub Agree : ℕ → Option (EventNotifier H) → Option EpollEvent → Type 0
  Agree fd none r = r ≡ none
  Agree fd (some n) r = (n.raw_fd ≡ fd) × (r ≡ entry n.status (epoll_event n))

  pub Agree-write :
      (i fd : ℕ) (o o' : Option (EventNotifier H)) (r r' : Option EpollEvent)
      → Agree fd o' r'
      → Agree i o r
      → Agree i (if i == fd then o' else o) (if i == fd then r' else r)
  Agree-write i fd o o' r r' new old = elim (Bool-cases (i == fd)) [
    | inl e ↦ rw e (subst (λ x. Agree x o' r') (ground arith) new)
    | inr e ↦ rw e old
  ]

module _ {K H : Type 0} (e : Epoll K) (registered : Registry K) where
  abbrev pub IsSynced : EventLoopContext K H → Type 0
  IsSynced c = (fd : ℕ) → Agree fd (get fd c.events) (registered c.epoll fd)

  -- A notifier is put for `fd`, and the entry of `fd` is written.
  pub put-IsSynced :
      (fd : ℕ) (n : EventNotifier H) (r : Option EpollEvent) (k : K) (c : EventLoopContext K H)
      → Agree fd (some n) r
      → ((i : ℕ) → registered k i ≡ (if i == fd then r else registered c.epoll i))
      → IsSynced c
      → IsSynced (put fd n (record c { epoll = k }))
  put-IsSynced fd n r k c new writes old i =
      rw (get-insert i fd n c.events, writes i)
        (Agree-write i fd (get i c.events) (some n) (registered c.epoll i) r new (old i))

  -- The same, written for the descriptor that the notifier names.
  pub put_known-IsSynced :
      (fd : ℕ) (n : EventNotifier H) (r : Option EpollEvent) (k : K) (c : EventLoopContext K H)
      → n.raw_fd ≡ fd
      → r ≡ entry n.status (epoll_event n)
      → ((i : ℕ) → registered k i ≡ (if i == n.raw_fd then r else registered c.epoll i))
      → IsSynced c
      → IsSynced (put fd n (record c { epoll = k }))
  put_known-IsSynced fd n r k c same new writes =
      put-IsSynced fd n r k c (same, new)
        (subst (λ f. (i : ℕ) → registered k i ≡ (if i == f then r else registered c.epoll i)) same
          writes)

  pub known :
      (fd : ℕ) (n : EventNotifier H) (c : EventLoopContext K H)
      → get fd c.events ≡ some n
      → IsSynced c
      → (n.raw_fd ≡ fd) × (registered c.epoll fd ≡ entry n.status (epoll_event n))
  known fd n c found s = subst (λ o. Agree fd o (registered c.epoll fd)) found (s fd)

  module _ (laws : IsInterestList e registered) where
    -- Whatever `park_event` comes back with, the map and the interest list agree behind it.
    pub park_event-IsSynced :
        (c : EventLoopContext K H) (event : EventNotifier H)
        → IsSynced c
        → IsSynced (park_event e c event).1
    unfolding park_event
    park_event-IsSynced c event s = elim (Option-cases (get event.raw_fd c.events)) [
      | inl absent ↦ rw (absent, park_event) s
      | inr (n, found) ↦
          rw (found, park_event)
            (ctl_then-cases e (λ x. IsSynced x.1) ctl_delete n.raw_fd no_event c
              (λ c'. (ok tt, put event.raw_fd (record n { status = park }) c'))
              (λ k q.
                put_known-IsSynced event.raw_fd (record n { status = park }) none k c
                  (known event.raw_fd n c found s).0 refl
                  (laws.delete_writes n.raw_fd no_event c.epoll k q) s)
              (λ x. s))
    ]

    -- So do they behind `resume_event`.
    pub resume_event-IsSynced :
        (c : EventLoopContext K H) (event : EventNotifier H)
        → IsSynced c
        → IsSynced (resume_event e c event).1
    unfolding resume_event
    resume_event-IsSynced c event s = elim (Option-cases (get event.raw_fd c.events)) [
      | inl absent ↦ rw (absent, resume_event) s
      | inr (n, found) ↦
          rw (found, resume_event)
            (ctl_then-cases e (λ x. IsSynced x.1) ctl_add n.raw_fd (epoll_event n) c
              (λ c'. (ok tt, put event.raw_fd (record n { status = alive }) c'))
              (λ k q.
                put_known-IsSynced event.raw_fd (record n { status = alive }) (some (epoll_event n))
                  k c (known event.raw_fd n c found s).0 refl
                  (laws.add_writes n.raw_fd (epoll_event n) c.epoll k q) s)
              (λ x. s))
    ]
