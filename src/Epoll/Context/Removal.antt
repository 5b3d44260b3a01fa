-- ===== src/Epoll/Context/Removal.antt =====
-- `rm_event` keeps the map of the notifiers and the interest list in agreement, on every branch.
use vm_tools.Common.{
  ℕ, ◌≡◌, refl, subst, ◌∙◌, inl, inr, arith, false, Bool-cases, Option, none, some, Option-cases,
  ◌==◌, ◌||◌, if◌then◌else◌, ok,
}
use vm_tools.Common.Maps.{get, get-remove}
use vm_tools.Epoll.Notifier.{EventStatus, alive, park, removed, EventNotifier}
use vm_tools.Epoll.System.{ctl_add, ctl_delete, EpollEvent, Epoll, no_event}
use vm_tools.Epoll.Context.{
  EventLoopContext, Result, epoll_event, put, retire, then_on, detach, unpark, rm_event, is_alive,
}
use vm_tools.Epoll.Context.Kernel.{Registry, IsInterestList}
use vm_tools.Epoll.Context.Cases.{ctl_then-cases, Ctl-cases}
use vm_tools.Epoll.Context.Synced.{entry, IsSynced, Agree-write, put-IsSynced, known}

entry_dead : (s : EventStatus) (ev : EpollEvent) → is_alive s ≡ false → entry s ev ≡ none
entry_dead alive ev h = ground arith
entry_dead park ev h = refl
entry_dead removed ev h = refl

module _ {K H : Type 0} (e : Epoll K) (registered : Registry K) where
  -- The interest list `k` has what that of the context has, less the entry of `fd`.
  abbrev Without : ℕ → EventLoopContext K H → K → Type 0
  Without fd c k = (i : ℕ) → registered k i ≡ (if i == fd then none else registered c.epoll i)

  Without-none :
      (fd : ℕ) (c : EventLoopContext K H) → registered c.epoll fd ≡ none → Without fd c c.epoll
  Without-none fd c absent i = elim (Bool-cases (i == fd)) [
    | inl same ↦ let eq : i ≡ fd = ground arith in rw (same, eq) absent
    | inr other ↦ rw other
  ]

  retire-IsSynced :
      (fd : ℕ) (n : EventNotifier H) (k : K) (c : EventLoopContext K H)
      → Without fd c k
      → IsSynced e registered c
      → IsSynced e registered (retire fd n (record c { epoll = k }))
  retire-IsSynced fd n k c gone s i =
      rw (get-remove i fd c.events, gone i)
        (Agree-write i fd (get i c.events) none (registered c.epoll i) none refl (s i))

  module _ (laws : IsInterestList e registered) where
    unpark-IsSynced :
        (c : EventLoopContext K H) (o : Option ℕ)
        → IsSynced e registered c
        → IsSynced e registered (unpark e c o).1
    unfolding unpark
    unpark-IsSynced c none s = s
    unpark-IsSynced c (some fd) s = elim (Option-cases (get fd c.events)) [
      | inl absent ↦ rw (absent, unpark) s
      | inr (n, found) ↦
          rw (found, unpark)
            (ctl_then-cases e (λ x. IsSynced e registered x.1) ctl_add fd (epoll_event n) c
              (λ c'. (ok tt, put fd (record n { status = alive }) c'))
              (λ k q.
                put-IsSynced e registered fd (record n { status = alive }) (some (epoll_event n)) k
                  c ((known e registered fd n c found s).0, refl)
                  (laws.add_writes fd (epoll_event n) c.epoll k q) s)
              (λ x. s))
    ]

    -- The goal behind `detach`, and then `next`: nothing is registered for the notifier any more, or
    -- it failed and changed nothing.
    detach-cases :
        (P : EventLoopContext K H → Type 0) (c : EventLoopContext K H) (n : EventNotifier H)
        (next : EventLoopContext K H → Result (Unit {0}) × EventLoopContext K H)
        → registered c.epoll n.raw_fd ≡ entry n.status (epoll_event n)
        → ((k : K) → Without n.raw_fd c k → P (next (record c { epoll = k })).1)
        → P c
        → P (then_on (detach e c n) next).1
    unfolding detach
    detach-cases P c n next entered good bad = elim (Bool-cases (is_alive n.status)) [
      | inr dead ↦
          rw (dead, detach)
            (good c.epoll
              (Without-none n.raw_fd c (entered ∙ entry_dead n.status (epoll_event n) dead)))
      | inl live ↦ elim (Ctl-cases (e.ctl ctl_delete n.raw_fd no_event c.epoll)) [
        | inl (k, q) ↦
            rw (live, q, detach) (good k (laws.delete_writes n.raw_fd no_event c.epoll k q))
        | inr (x, q) ↦ elim (Option-cases x.raw_os_error) [
          | inl unnumbered ↦ rw (live, q, unnumbered, detach) bad
          | inr (m, number) ↦
              elim (Bool-cases ((m == e.ebadf) || (m == e.enoent) || (m == e.eperm))) [
                | inl gone ↦
                    rw (live, q, number, gone, detach)
                      (good c.epoll (
                        Without-none n.raw_fd c
                          (laws.delete_gone n.raw_fd m no_event c.epoll x q number gone)))
                | inr other ↦ rw (live, q, number, other, detach) bad
              ]
        ]
      ]
    ]

    -- Whatever `rm_event` comes back with, the map and the interest list agree behind it.
    pub rm_event-IsSynced :
        (c : EventLoopContext K H) (event : EventNotifier H)
        → IsSynced e registered c
        → IsSynced e registered (rm_event e c event).1
    unfolding rm_event
    rm_event-IsSynced c event s = elim (Option-cases (get event.raw_fd c.events)) [
      | inl absent ↦ rw (absent, rm_event) s
      | inr (n, found) ↦
          let fd = event.raw_fd in
          let (same, entered) = known e registered fd n c found s in
          let at_fd : registered c.epoll n.raw_fd ≡ entry n.status (epoll_event n) =
            rw same entered in
          rw (found, rm_event)
            (detach-cases (λ x. IsSynced e registered x) c n
              (λ c'. unpark e (retire fd n c') n.parked_fd) at_fd
              (λ k gone.
                unpark-IsSynced (retire fd n (record c { epoll = k })) n.parked_fd
                  (retire-IsSynced fd n k c (subst (λ f. Without f c k) same gone) s))
              s)
    ]
