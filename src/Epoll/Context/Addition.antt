-- ===== src/Epoll/Context/Addition.antt =====
-- `add_event` and `modify_event` against the interest list, `add_event` with what it leaves when it fails.
use vm_tools.Common.{
  ℕ, ◌≡◌, refl, sym, subst, ◌∙◌, inl, inr, arith, true, Bool-cases, Option, none, some,
  Option-cases, ◌++◌, bit_or, ◌==◌, if◌then◌else◌, ok, err,
}
use vm_tools.Common.Maps.{get, insert, get-insert}
use vm_tools.Epoll.Notifier.{EventStatus, alive, park, removed, EventNotifier, no_parked_fd}
use vm_tools.Epoll.System.{ctl_add, ctl_modify, ctl_delete, EpollEvent, done, Epoll, no_event}
use vm_tools.Epoll.Context.{
  EventLoopContext, Result, epoll_event, put, ctl_then, add_event, add_shared_event,
  park_then_insert, modify_event, is_add_exclusion,
}
use vm_tools.Epoll.Context.Kernel.{Registry, IsInterestList}
use vm_tools.Epoll.Context.Cases.{ctl_then-cases}
use vm_tools.Epoll.Context.Synced.{entry, IsSynced, put-IsSynced, put_known-IsSynced, known}

entry-some :
    (s : EventStatus) (ev old ev' : EpollEvent) → entry s ev ≡ some old → some ev' ≡ entry s ev'
entry-some alive ev old ev' h = refl
entry-some park ev old ev' h = ground arith
entry-some removed ev old ev' h = ground arith

kept : (f : ℕ → Option EpollEvent) (fd i : ℕ) → f i ≡ (if i == fd then f fd else f i)
kept f fd i = elim (Bool-cases (i == fd)) [
  | inl e ↦ let same : i ≡ fd = ground arith in rw (e, same)
  | inr e ↦ rw e
]

eq_sym : (a b : ℕ) → (a == b) ≡ true → b ≡ a
eq_sym a b h = ground arith

self_eq : (n : ℕ) → (n == n) ≡ true
self_eq n = ground arith

module _ {K H : Type 0} (e : Epoll K) (registered : Registry K) where
  -- A notifier is put for `fd` that is registered as the one before it.
  put_same-IsSynced :
      (fd : ℕ) (n n' : EventNotifier H) (c : EventLoopContext K H)
      → get fd c.events ≡ some n
      → n'.raw_fd ≡ n.raw_fd
      → entry n'.status (epoll_event n') ≡ entry n.status (epoll_event n)
      → IsSynced e registered c
      → IsSynced e registered (put fd n' c)
  put_same-IsSynced fd n n' c found fds entries s =
      let (same, entered) = known e registered fd n c found s in
      put-IsSynced e registered fd n' (registered c.epoll fd) c.epoll c
        (fds ∙ same, entered ∙ sym entries) (kept (registered c.epoll) fd) s

  -- `modify_event` changes the handlers alone: the map and the interest list agree behind it.
  pub modify_event-IsSynced :
      (c : EventLoopContext K H) (event : EventNotifier H)
      → IsSynced e registered c
      → IsSynced e registered (modify_event c event).1
  unfolding modify_event
  modify_event-IsSynced c event s = elim (Option-cases (get event.raw_fd c.events)) [
    | inl absent ↦ rw (absent, modify_event) s
    | inr (n, found) ↦
        rw (found, modify_event)
          (put_same-IsSynced event.raw_fd n (record n { handlers = event.handlers }) c found refl
            refl s)
  ]

  -- What is left behind a call agrees if the call succeeds.
  abbrev pub SyncedIfOk : Result (Unit {0}) × EventLoopContext K H → Type 0
  SyncedIfOk x = x.0 ≡ ok tt → IsSynced e registered x.1

  module _ (laws : IsInterestList e registered) where
    shared-SyncedIfOk :
        (c : EventLoopContext K H) (n event : EventNotifier H)
        → get event.raw_fd c.events ≡ some n
        → IsSynced e registered c
        → SyncedIfOk (add_shared_event e c n event)
    unfolding add_shared_event
    shared-SyncedIfOk c n event found s = elim (Bool-cases (is_add_exclusion event.op)) [
      | inl exclusive ↦ rw (exclusive, add_shared_event) (λ _. s)
      | inr shared ↦
          let fd = event.raw_fd in
          let merged = bit_or n.event event.event in
          let ev : EpollEvent = record { events = merged; data_ = n.addr } in
          let joined : EventNotifier H = record n { handlers = n.handlers ++ event.handlers } in
          let joint : EventNotifier H = record joined { event = merged } in
          elim (Bool-cases (n.event == event.event)) [
            | inl alike ↦
                rw (shared, alike, add_shared_event)
                  (λ _. put_same-IsSynced fd n joined c found refl refl s)
            | inr other ↦
                rw (shared, other, add_shared_event)
                  (ctl_then-cases e SyncedIfOk ctl_modify n.raw_fd ev c
                    (λ c'. (ok tt, put fd joint c'))
                    (λ k q _.
                      let (same, entered) = known e registered fd n c found s in
                      let (old, was) = laws.modify_known n.raw_fd ev c.epoll k q in
                      let was_entry : entry n.status (epoll_event n) ≡ some old =
                        sym entered ∙ subst (λ f. registered c.epoll f ≡ some old) same was in
                      put_known-IsSynced e registered fd joint (some ev) k c same
                        (entry-some n.status (epoll_event n) old ev was_entry)
                        (laws.modify_writes n.raw_fd ev c.epoll k q) s)
                    (λ x _. s))
          ]
    ]

    -- A notifier for a descriptor that has none, with another one parked for it.
    parked-IsSynced :
        (c : EventLoopContext K H) (event parked : EventNotifier H) (fd : ℕ) (k k' : K)
        → event.status ≡ alive
        → get event.raw_fd c.events ≡ none
        → get fd c.events ≡ some parked
        → e.ctl ctl_add event.raw_fd (epoll_event event) c.epoll ≡ done k
        → e.ctl ctl_delete fd no_event k ≡ done k'
        → IsSynced e registered c
        → IsSynced e registered (
            put event.raw_fd event
              (put fd (record parked { status = park }) (record c { epoll = k' })))
    parked-IsSynced c event parked fd k k' live absent found q q' s i =
        let own = event.raw_fd in
        let adds = laws.add_writes own (epoll_event event) c.epoll k q i in
        let deletes = laws.delete_writes fd no_event k k' q' i in
        let parked' : EventNotifier H = record parked { status = park } in
        let m = insert fd parked' c.events in
        rw (get-insert i own event m, get-insert i fd parked' c.events, deletes, adds)
          (elim (Bool-cases (i == own)) [
            | inl is_own ↦ elim (Bool-cases (i == fd)) [
              | inl is_fd ↦
                  let same : own ≡ fd = eq_sym i own is_own ∙ sym (eq_sym i fd is_fd) in
                  let clash : none ≡ some parked =
                    sym absent ∙ subst (λ f. get f c.events ≡ some parked) (sym same) found in
                  ground arith
              | inr other ↦ rw (is_own, other) (eq_sym i own is_own, rw live)
            ]
            | inr not_own ↦ elim (Bool-cases (i == fd)) [
              | inl is_fd ↦
                  rw (not_own, is_fd)
                    ((known e registered fd parked c found s).0 ∙ eq_sym i fd is_fd, refl)
              | inr other ↦ rw (not_own, other) (s i)
            ]
          ])

    insert_parked-SyncedIfOk :
        (c : EventLoopContext K H) (event : EventNotifier H) (k : K)
        → event.status ≡ alive
        → get event.raw_fd c.events ≡ none
        → e.ctl ctl_add event.raw_fd (epoll_event event) c.epoll ≡ done k
        → IsSynced e registered c
        → SyncedIfOk (park_then_insert e (record c { epoll = k }) event)
    unfolding park_then_insert
    insert_parked-SyncedIfOk c event k live absent q s = elim (Option-cases event.parked_fd) [
      | inl alone ↦
          rw (alone, park_then_insert)
            (λ _.
              put-IsSynced e registered event.raw_fd event (some (epoll_event event)) k c
                (refl, rw live refl) (laws.add_writes event.raw_fd (epoll_event event) c.epoll k q)
                s)
      | inr (fd, parking) ↦ elim (Option-cases (get fd c.events)) [
        | inl missing ↦ rw (parking, missing, park_then_insert) (λ h. ground arith)
        | inr (n, found) ↦
            rw (parking, found, park_then_insert)
              (ctl_then-cases e SyncedIfOk ctl_delete fd no_event (record c { epoll = k })
                (λ c'. (ok tt, put event.raw_fd event (put fd (record n { status = park }) c')))
                (λ k' q' _. parked-IsSynced c event n fd k k' live absent found q q' s)
                (λ x h. ground arith))
      ]
    ]

    add_event-SyncedIfOk :
        (c : EventLoopContext K H) (event : EventNotifier H)
        → event.status ≡ alive
        → IsSynced e registered c
        → SyncedIfOk (add_event e c event)
    unfolding add_event
    add_event-SyncedIfOk c event live s = elim (Option-cases (get event.raw_fd c.events)) [
      | inr (n, found) ↦ rw (found, add_event) (shared-SyncedIfOk c n event found s)
      | inl absent ↦
          rw (absent, add_event)
            (ctl_then-cases e SyncedIfOk ctl_add event.raw_fd (epoll_event event) c
              (λ c'. park_then_insert e c' event)
              (λ k q. insert_parked-SyncedIfOk c event k live absent q s) (λ x _. s))
    ]

    -- If `add_event` of a notifier that is alive succeeds, the map and the interest list agree behind
    -- it.
    pub add_event-IsSynced :
        (c : EventLoopContext K H) (event : EventNotifier H)
        → event.status ≡ alive
        → IsSynced e registered c
        → (add_event e c event).0 ≡ ok tt
        → IsSynced e registered (add_event e c event).1
    add_event-IsSynced c event live s succeeds = add_event-SyncedIfOk c event live s succeeds

    -- For a descriptor that has no notifier, with a parked one that is missing, `add_event` fails once
    -- the system took the descriptor: it stays registered for the box, and the map has no notifier.
    pub add_event_leaks :
        (c : EventLoopContext K H) (event : EventNotifier H) (fd : ℕ) (k : K)
        → get event.raw_fd c.events ≡ none
        → event.parked_fd ≡ some fd
        → get fd c.events ≡ none
        → e.ctl ctl_add event.raw_fd (epoll_event event) c.epoll ≡ done k
        → (add_event e c event ≡ (err (no_parked_fd fd), record c { epoll = k }))
          × (registered k event.raw_fd ≡ some (epoll_event event))
    unfolding add_event park_then_insert
    add_event_leaks c event fd k absent parking missing q =
        let own = event.raw_fd in
        let adds = laws.add_writes own (epoll_event event) c.epoll k q own in
        (
          rw (absent, add_event, q, parking, missing, ctl_then, park_then_insert) refl,
          adds ∙ rw (self_eq own) refl,
        )
