-- ===== src/Epoll/Handling/Calls.antt =====
-- Which callbacks the events of a round call, and with what.
use vm_tools.Common.{
  ℕ, ◌≡◌, refl, subst, sym, ap, ◌∙◌, arith, true, false, Bool-cases, inl, inr, some, Option-cases,
  List, [], ◌∷◌, ◌++◌, ◌==◌, ok, not-none-some, some-inj,
}
use mathlib.Core.List.{append_assoc, append-nil}
use vm_tools.Epoll.Notifier.{EventStatus, alive, park, removed, EventNotifier}
use vm_tools.Epoll.System.{EpollEvent, Epoll}
use vm_tools.Epoll.Context.{EventLoopContext, is_alive, update_events}
use vm_tools.Epoll.Context.Boxes.{HasNumbers, eq_of_test}
use vm_tools.Epoll.Handling.{
  Program, box_in, box_among, box_at, get_list, call_handlers, ask, handle_event, handle_events,
}
use vm_tools.Epoll.Handling.Safety.{AllKept, go_on-ok, handled, box_at-Kept}

module _ {H W : Type 0} (p : Program H W) (event fd : ℕ) where
  -- The handlers are called one behind the other, each with the events and the descriptor, in the world
  -- that the one before left; together they ask for `ns`.
  pub data Called : List H → W → List (EventNotifier H) → W → Type 0 where
    nobody : {w : W} → Called [] w [] w
    next :
        {h : H} {hs : List H} {w w' : W} {ns : List (EventNotifier H)}
        → Called hs (p.call h event fd w).1 ns w'
        → Called (h ∷ hs) w (get_list (p.call h event fd w).0 ++ ns) w'

  call_handlers-Called :
      (hs : List H) (before : List (EventNotifier H)) (w : W)
      → (ns : List (EventNotifier H)) × Called hs w ns (call_handlers p hs event fd before w).1
        × ((call_handlers p hs event fd before w).0 ≡ before ++ ns)
  unfolding call_handlers
  call_handlers-Called [] before w = ([], nobody, sym (append-nil before))
  call_handlers-Called (h ∷ hs) before w =
      let x = p.call h event fd w in
      let (ns, calls, asked) = call_handlers-Called hs (before ++ get_list x.0) x.1 in
      (get_list x.0 ++ ns, next calls, asked ∙ append_assoc before (get_list x.0) ns)

module _ {H : Type 0} (a : ℕ) where
  box_in-addr :
      (n : EventNotifier H) (m : List (ℕ × EventNotifier H)) → box_in a m ≡ some n → n.addr ≡ a
  box_in-addr n [] h = absurd (not-none-some n h)
  box_in-addr n ((fd, x) ∷ m) h = elim (Bool-cases (x.addr == a)) [
    | inl here ↦
        let same = some-inj x n (rw here at h) in
        ap (λ (y : EventNotifier H). y.addr) (sym same) ∙ eq_of_test x.addr a here
    | inr other ↦ box_in-addr n m (rw other at h)
  ]

  box_among-addr :
      (n : EventNotifier H) (gc : List (EventNotifier H)) → box_among a gc ≡ some n → n.addr ≡ a
  box_among-addr n [] h = absurd (not-none-some n h)
  box_among-addr n (x ∷ gc) h = elim (Bool-cases (x.addr == a)) [
    | inl here ↦
        let same = some-inj x n (rw here at h) in
        ap (λ (y : EventNotifier H). y.addr) (sym same) ∙ eq_of_test x.addr a here
    | inr other ↦ box_among-addr n gc (rw other at h)
  ]

  -- The box that is found at an address has it.
  box_at-addr :
      {K : Type 0} (c : EventLoopContext K H) (n : EventNotifier H)
      → box_at a c ≡ some n
      → n.addr ≡ a
  unfolding box_at
  box_at-addr c n h = elim (Option-cases (box_in a c.events)) [
    | inl missing ↦ box_among-addr n c.gc (rw missing at h)
    | inr (m, found) ↦
        let same = some-inj m n (rw found at h) in box_in-addr n c.events (found ∙ ap some same)
  ]

clash_alive : (st : EventStatus) → is_alive st ≡ false → st ≡ alive → ⊥
clash_alive alive h q = ground arith
clash_alive park h q = ground arith
clash_alive removed h q = ground arith

is_alive-alive : (st : EventStatus) → is_alive st ≡ true → st ≡ alive
is_alive-alive alive h = refl
is_alive-alive park h = ground arith
is_alive-alive removed h = ground arith

module _ {K H W : Type 0} (e : Epoll K) (p : Program H W) where
  -- The events of a round, from a context and a world to those that they leave: the notifier of the box
  -- that an event names has all its handlers called, if it is alive, and none otherwise; what they ask
  -- for is done ahead of the next event.
  pub data Handles
      : EventLoopContext K H → W → List EpollEvent → EventLoopContext K H → W → Type 0 where
    done : {c : EventLoopContext K H} {w : W} → Handles c w [] c w
    called :
        {c c' : EventLoopContext K H} {w w' w'' : W} {ev : EpollEvent} {evs : List EpollEvent}
        (n : EventNotifier H) (ns : List (EventNotifier H))
        → box_at ev.data_ c ≡ some n
        → n.addr ≡ ev.data_
        → n.status ≡ alive
        → Called p ev.events n.raw_fd n.handlers w ns w'
        → Handles (update_events e c ns).1 w' evs c' w''
        → Handles c w (ev ∷ evs) c' w''
    passed :
        {c c' : EventLoopContext K H} {w w' : W} {ev : EpollEvent} {evs : List EpollEvent}
        (n : EventNotifier H)
        → box_at ev.data_ c ≡ some n
        → n.addr ≡ ev.data_
        → ¬ (n.status ≡ alive)
        → Handles (update_events e c []).1 w evs c' w'
        → Handles c w (ev ∷ evs) c' w'

  -- With the box of `n` at the address of the event, these are the callbacks that it calls.
  handle_event-left :
      (c : EventLoopContext K H) (w : W) (ev : EpollEvent) (n : EventNotifier H)
      → box_at ev.data_ c ≡ some n
      → ((handle_event e p c w ev).1 ≡ (update_events e c (ask p n ev.events w).0).1)
        × ((handle_event e p c w ev).2 ≡ (ask p n ev.events w).1)
  unfolding handle_event
  handle_event-left c w ev n found = rw (found, handle_event) (refl, refl)

  handle_event-Handles :
      (c c' : EventLoopContext K H) (w w' : W) (ev : EpollEvent) (evs : List EpollEvent)
      (n : EventNotifier H)
      → box_at ev.data_ c ≡ some n
      → Handles (update_events e c (ask p n ev.events w).0).1 (ask p n ev.events w).1 evs c' w'
      → Handles c w (ev ∷ evs) c' w'
  unfolding ask
  handle_event-Handles c c' w w' ev evs n found rest =
      let addr = box_at-addr ev.data_ c n found in
      elim (Bool-cases (is_alive n.status)) [
        | inl live ↦
            let (ns, calls, asked) = call_handlers-Called p ev.events n.raw_fd n.handlers [] w in
            let rest' = rw (live, ask) at rest in
            called n ns found addr (is_alive-alive n.status live) calls (
              subst
                (λ xs.
                  Handles (update_events e c xs).1
                    (call_handlers p n.handlers ev.events n.raw_fd [] w).1 evs c' w')
                asked rest')
        | inr dead ↦ passed n found addr (λ q. clash_alive n.status dead q) (rw (dead, ask) at rest)
      ]

  -- With errors of the system that carry their numbers, and events whose boxes are kept: none of them
  -- fails, and the context and the world are left as `Handles` says, which calls every handler of the
  -- alive notifiers, in the order of the events, and no other.
  pub handle_events-Handles :
      (evs : List EpollEvent) (c : EventLoopContext K H) (w : W)
      → HasNumbers e
      → AllKept evs c
      → ((handle_events e p c w evs).0 ≡ ok tt)
        × Handles c w evs (handle_events e p c w evs).1 (handle_events e p c w evs).2
  unfolding handle_events
  handle_events-Handles [] c w numbers kept = (refl, done)
  handle_events-Handles (ev ∷ evs) c w numbers (first, rest) =
      let (n, found) = box_at-Kept ev.data_ c first in
      let (good, kept) = handled e p numbers c w ev evs first rest in
      let x = handle_event e p c w ev in
      let (result, left) = handle_events-Handles evs x.1 x.2 numbers kept in
      let (same, same') = handle_event-left c w ev n found in
      let y = handle_events e p x.1 x.2 evs in
      rw (go_on-ok x (λ c' w'. handle_events e p c' w' evs) tt good) (
        result,
        handle_event-Handles c y.1 w y.2 ev evs n found (
            subst (λ d. Handles d (ask p n ev.events w).1 evs y.1 y.2) same
              (subst (λ v. Handles x.1 v evs y.1 y.2) same' left)),
      )
