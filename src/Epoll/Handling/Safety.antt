-- ===== src/Epoll/Handling/Safety.antt =====
-- No box that an event names is gone when the event is handled.
use vm_tools.Common.{
  ℕ, ◌≡◌, refl, subst, ◌∙◌, arith, Bool-cases, inl, inr, Option, none, some, List, [], ◌∷◌, ◌==◌,
  ok, err, panic, out_of_fuel,
}
use vm_tools.Common.Maps.{get}
use vm_tools.Epoll.Notifier.{EventStatus, alive, park, removed, EventNotifier}
use vm_tools.Epoll.System.{EpollEvent, Epoll}
use vm_tools.Epoll.Context.{EventLoopContext, Result, epoll_event, update_events}
use vm_tools.Epoll.Context.Kernel.{Registry}
use vm_tools.Epoll.Context.Synced.{IsSynced, entry, Agree}
use vm_tools.Epoll.Context.Boxes.{Among, Kept, Returns, HasNumbers}
use vm_tools.Epoll.Context.Boxes.Operations.{update_events-Kept}
use vm_tools.Epoll.Handling.{
  Program, box_in, box_among, or_box, box_at, Left, go_on, logged, ask, handle_event, handle_events,
}

module _ {H : Type 0} (a : ℕ) where
  box_in-get :
      (fd : ℕ) (n : EventNotifier H) (m : List (ℕ × EventNotifier H))
      → get fd m ≡ some n
      → n.addr ≡ a
      → (n' : EventNotifier H) × (box_in a m ≡ some n')
  unfolding get
  box_in-get fd n [] found at = absurd (ground arith)
  box_in-get fd n ((j, m) ∷ rest) found at = elim (Bool-cases (m.addr == a)) [
    | inl here ↦ (m, rw here)
    | inr other ↦ rw other (box_in-get fd n rest (ground arith) at)
  ]

  box_among-Among :
      (gc : List (EventNotifier H))
      → Among a gc
      → (n' : EventNotifier H) × (box_among a gc ≡ some n')
  box_among-Among [] h = absurd h
  box_among-Among (n ∷ gc) (inl at) = (n, ground arith)
  box_among-Among (n ∷ gc) (inr h) = elim (Bool-cases (n.addr == a)) [
    | inl here ↦ (n, rw here)
    | inr other ↦ rw other (box_among-Among gc h)
  ]

  or_box-right :
      (o o' : Option (EventNotifier H)) (n : EventNotifier H)
      → o' ≡ some n
      → (n' : EventNotifier H) × (or_box o o' ≡ some n')
  or_box-right none o' n h = (n, h)
  or_box-right (some m) o' n h = (m, refl)

  -- A box that is kept is found.
  pub box_at-Kept :
      {K : Type 0} (c : EventLoopContext K H)
      → Kept a c
      → (n : EventNotifier H) × (box_at a c ≡ some n)
  unfolding box_at
  box_at-Kept c (inl (fd, n, found, at)) =
      let (n', there) = box_in-get fd n c.events found at in (n', rw there)
  box_at-Kept c (inr h) =
      let (n, there) = box_among-Among c.gc h in
      or_box-right (box_in a c.events) (box_among a c.gc) n there

-- The box that each event names is kept.
abbrev pub AllKept : {K H : Type 0} → List EpollEvent → EventLoopContext K H → Type 0
AllKept [] c = Unit
AllKept (ev ∷ evs) c = Kept ev.data_ c × AllKept evs c

-- Each event names the box of an entry of the interest list.
abbrev pub AllRegistered : (ℕ → Option EpollEvent) → List EpollEvent → Type 0
AllRegistered registered [] = Unit
AllRegistered registered (ev ∷ evs) =
    ((fd : ℕ) × (old : EpollEvent) × (registered fd ≡ some old) × (old.data_ ≡ ev.data_))
    × AllRegistered registered evs

pub go_on-ok :
    {K H W A B : Type 0} (x : Left K H W A) (next : EventLoopContext K H → W → Left K H W B) (a : A)
    → x.0 ≡ ok a
    → go_on x next ≡ next x.1 x.2
go_on-ok (ok b, c, w) next a h = refl
go_on-ok (err y, c, w) next a h = ground arith
go_on-ok (panic, c, w) next a h = ground arith
go_on-ok (out_of_fuel, c, w) next a h = ground arith

module _ {K H W : Type 0} (e : Epoll K) (p : Program H W) (numbers : HasNumbers e) where
  AllKept-updates :
      (evs : List EpollEvent) (c : EventLoopContext K H) (ns : List (EventNotifier H))
      → AllKept evs c
      → AllKept evs (update_events e c ns).1
  AllKept-updates [] c ns h = tt
  AllKept-updates (ev ∷ evs) c ns (first, rest) =
      ((update_events-Kept ev.data_ e numbers c ns first).0, AllKept-updates evs c ns rest)

  logged-ok : (r : Result (Unit {0})) → Returns r → logged r ≡ ok tt
  logged-ok (ok _) h = refl
  logged-ok (err x) h = refl
  logged-ok panic h = absurd h
  logged-ok out_of_fuel h = absurd h

  -- One event: it is handled, and the boxes of the others are kept.
  pub handled :
      (c : EventLoopContext K H) (w : W) (ev : EpollEvent) (evs : List EpollEvent)
      → Kept ev.data_ c
      → AllKept evs c
      → ((handle_event e p c w ev).0 ≡ ok tt) × AllKept evs (handle_event e p c w ev).1
  unfolding handle_event
  handled c w ev evs first rest =
      let (n, found) = box_at-Kept ev.data_ c first in
      let ns = (ask p n ev.events w).0 in
      rw (found, handle_event)
        (
          logged-ok (update_events e c ns).0 (update_events-Kept ev.data_ e numbers c ns first).1,
          AllKept-updates evs c ns rest,
        )

  -- With errors of the system that carry their numbers, events whose boxes are kept are all handled,
  -- whatever the handlers ask for: no event meets a box that was dropped, and nothing panics.
  pub handle_events-ok :
      (evs : List EpollEvent) (c : EventLoopContext K H) (w : W)
      → AllKept evs c
      → (handle_events e p c w evs).0 ≡ ok tt
  unfolding handle_events
  handle_events-ok [] c w h = refl
  handle_events-ok (ev ∷ evs) c w (first, rest) =
      let (done, kept) = handled c w ev evs first rest in
      let x = handle_event e p c w ev in
      rw (go_on-ok x (λ c' w'. handle_events e p c' w' evs) tt done)
        (handle_events-ok evs x.1 x.2 kept)

entry-alive :
    {H : Type 0} (st : EventStatus) (n : EventNotifier H) (old : EpollEvent)
    → some old ≡ entry st (epoll_event n)
    → n.addr ≡ old.data_
entry-alive alive n old h = ground arith
entry-alive park n old h = ground arith
entry-alive removed n old h = ground arith

registered-Kept :
    {K H : Type 0} (c : EventLoopContext K H) (fd a : ℕ) (old : EpollEvent)
    (o : Option (EventNotifier H))
    → get fd c.events ≡ o
    → Agree fd o (some old)
    → old.data_ ≡ a
    → Kept a c
registered-Kept c fd a old none at h same = absurd (ground arith)
registered-Kept c fd a old (some n) at h same =
    inl (fd, n, at, entry-alive n.status n old h.1 ∙ same)

-- Where the map and the interest list agree, the box of each entry is kept.
pub AllRegistered-Kept :
    {K H : Type 0} (e : Epoll K) (registered : Registry K) (c : EventLoopContext K H)
    (evs : List EpollEvent)
    → IsSynced e registered c
    → AllRegistered (registered c.epoll) evs
    → AllKept evs c
AllRegistered-Kept e registered c [] s h = tt
AllRegistered-Kept e registered c (ev ∷ evs) s ((fd, old, at, same), rest) = (
  registered-Kept c fd ev.data_ old (get fd c.events) refl
      (subst (λ r. Agree fd (get fd c.events) r) at (s fd)) same,
  AllRegistered-Kept e registered c evs s rest,
)
