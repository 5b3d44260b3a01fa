-- ===== src/Epoll/Context/Parking/Restored.antt =====
-- A notifier that parks another one, added and removed again.
use vm_tools.Common.{
  not-none-some, some-inj, ℕ, ◌≡◌, refl, sym, subst, ◌∙◌, ap, arith, inl, inr, Bool-cases, true,
  false, Option, none, some, List, ◌==◌, if◌then◌else◌, ok,
}
use vm_tools.Common.Maps.{get}
use vm_tools.Epoll.Notifier.{alive, park, EventNotifier}
use vm_tools.Epoll.System.{EpollEvent, Epoll}
use vm_tools.Epoll.Context.{EventLoopContext, epoll_event, add_event, rm_event}
use vm_tools.Epoll.Context.Kernel.{Registry, IsInterestList}
use vm_tools.Epoll.Context.Synced.{IsSynced, Agree, entry}
use vm_tools.Epoll.Context.Addition.{add_event-IsSynced}
use vm_tools.Epoll.Context.Removal.{rm_event-IsSynced}
use vm_tools.Epoll.Context.Parking.{Added, Taken, add_event-Added, rm_event-Taken}

module _ {K H : Type 0} (e : Epoll K) where
  restored : (n : EventNotifier H) → n.status ≡ alive → record n { status = alive } ≡ n
  restored n live = ap (λ st. record n { status = st }) (sym live)

  -- A parked notifier as the removal finds it is the one that was parked.
  parked_again :
      (event n n' : EventNotifier H) (p : ℕ) (m m1 : List (ℕ × EventNotifier H))
      → (p == event.raw_fd) ≡ false
      → get p m1 ≡ (
          if p == event.raw_fd
          then some event
          else (if p == p then some (record n { status = park }) else get p m))
      → (if p == event.raw_fd then none else get p m1) ≡ some n'
      → n' ≡ record n { status = park }
  parked_again event n n' p m m1 other added got =
      let self : p == p ≡ true = ground arith in
      let kept = rw (other, self) at added in
      let again = rw other at got in some-inj n' (record n { status = park }) (sym again ∙ kept)

  Added-get :
      (event : EventNotifier H) (o : Option ℕ) (m m' : List (ℕ × EventNotifier H))
      → Added e event o m m'
      → get event.raw_fd m' ≡ some event
  Added-get event none m m' added =
      let self : event.raw_fd == event.raw_fd ≡ true = ground arith in
      let stands = added event.raw_fd in rw self at stands
  Added-get event (some p) m m' (n, found, added) =
      let self : event.raw_fd == event.raw_fd ≡ true = ground arith in
      let stands = added event.raw_fd in rw self at stands

  find-restored :
      (event : EventNotifier H) (o : Option ℕ) (m m1 m2 : List (ℕ × EventNotifier H))
      → get event.raw_fd m ≡ none
      → ((p : ℕ) (n : EventNotifier H) → o ≡ some p → get p m ≡ some n → n.status ≡ alive)
      → Added e event o m m1
      → Taken e event.raw_fd o m1 m2
      → (i : ℕ) → get i m2 ≡ get i m
  find-restored event none m m1 m2 new lives added taken i =
      let after = taken i in
      let before = added i in
      elim (Bool-cases (i == event.raw_fd)) [
        | inl hit ↦ let eq : i ≡ event.raw_fd = ground arith in (rw hit at after) ∙ sym (rw eq new)
        | inr off ↦ (rw off at after) ∙ (rw off at before)
      ]
  find-restored event (some p) m m1 m2 new lives (n, found, added) (n', got, taken) i =
      let other : p == event.raw_fd ≡ false = elim (Bool-cases (p == event.raw_fd)) [
        | inl hit ↦
            let eq : p ≡ event.raw_fd = ground arith in
            absurd (not-none-some n (sym new ∙ rw (← eq) found))
        | inr off ↦ off
      ] in
      let same = parked_again event n n' p m m1 other (added p) got in
      let back : record n' { status = alive } ≡ n =
        ap (λ (x : EventNotifier H). record x { status = alive }) same
        ∙ restored n (lives p n refl found) in
      let after = taken i in
      let before = added i in
      elim (Bool-cases (i == p)) [
        | inl hit ↦
            let eq : i ≡ p = ground arith in
            (rw hit at after) ∙ ap some back ∙ sym (subst (λ x. get x m ≡ some n) (sym eq) found)
        | inr off ↦ elim (Bool-cases (i == event.raw_fd)) [
          | inl hit ↦
              let eq : i ≡ event.raw_fd = ground arith in (rw (off, hit) at after) ∙ sym (rw eq new)
          | inr off' ↦ (rw (off, off') at after) ∙ (rw (off, off') at before)
        ]
      ]

  module _ (registered : Registry K) (laws : IsInterestList e registered) where
    -- Two contexts that agree with their interest lists: at a descriptor where they have the same
    -- notifier, the same is registered.
    Agree-same :
        (i : ℕ) (o o' : Option (EventNotifier H)) (r r' : Option EpollEvent)
        → o' ≡ o
        → Agree i o r
        → Agree i o' r'
        → r' ≡ r
    Agree-same i none none r r' h a a' = a' ∙ sym a
    Agree-same i none (some n') r r' h a a' = absurd (not-none-some n' (sym h))
    Agree-same i (some n) none r r' h a a' = absurd (not-none-some n h)
    Agree-same i (some n) (some n') r r' h (_, a) (_, a') =
        a' ∙ ap (λ x. entry x.status (epoll_event x)) (some-inj n' n h) ∙ sym a

    -- Where the map and the interest list agree: an addition for a descriptor that has no notifier, and
    -- the removal of that descriptor, both successful, leave the map and the interest list as they were
    -- at every descriptor, if the notifier that the new one parks, where it parks one, was alive.
    pub add_event-rm_event :
        (c : EventLoopContext K H) (event leaving : EventNotifier H)
        → IsSynced e registered c
        → get event.raw_fd c.events ≡ none
        → event.status ≡ alive
        → ((p : ℕ) (n : EventNotifier H)
            → event.parked_fd ≡ some p
            → get p c.events ≡ some n
            → n.status ≡ alive)
        → leaving.raw_fd ≡ event.raw_fd
        → (add_event e c event).0 ≡ ok tt
        → (rm_event e (add_event e c event).1 leaving).0 ≡ ok tt
        → (i : ℕ)
        → (get i (rm_event e (add_event e c event).1 leaving).1.events ≡ get i c.events)
          × (registered (rm_event e (add_event e c event).1 leaving).1.epoll i
              ≡ registered c.epoll i)
    add_event-rm_event c event leaving synced new live lives same added removed i =
        let c1 = (add_event e c event).1 in
        let c2 = (rm_event e c1 leaving).1 in
        let at_add = add_event-Added e c event new added in
        let stands = Added-get event event.parked_fd c.events c1.events at_add in
        let stands' = subst (λ x. get x c1.events ≡ some event) (sym same) stands in
        let at_rm =
          subst (λ x. Taken e x event.parked_fd c1.events c2.events) same
            (rm_event-Taken e c1 leaving event stands' removed) in
        let back =
          find-restored event event.parked_fd c.events c1.events c2.events new lives at_add at_rm
            i in
        let synced1 = add_event-IsSynced e registered laws c event live synced added in
        let synced2 = rm_event-IsSynced e registered laws c1 leaving synced1 in
        (
          back,
          Agree-same i (get i c.events) (get i c2.events) (registered c.epoll i)
              (registered c2.epoll i) back (synced i) (synced2 i),
        )
