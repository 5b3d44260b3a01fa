-- ===== src/Epoll/Context/Boxes.antt =====
-- The boxes of the notifiers that a context has, and what a write to its map does to them.
pub mod Operations
use vm_tools.Common.{
  ℕ, ◌≡◌, refl, sym, ap, ◌∙◌, ◌⊎◌, inl, inr, arith, Bool, true, false, Bool-cases, Option, none,
  some, Option-cases, List, [], ◌∷◌, ◌++◌, bit_or, ◌||◌, ◌==◌, if◌then◌else◌, Outcome, ok, err,
  panic, out_of_fuel,
}
use vm_tools.Common.Maps.{get, insert, remove, get-insert, get-remove}
use vm_tools.Epoll.Notifier.{
  alive, park, removed, NotifierOperation, add_exclusion, add_shared, modify, delete, park_op,
  resume, EventNotifier, EventError, bad_syscall,
}
use vm_tools.UtilErrors.{IoError}
use vm_tools.Epoll.System.{
  ControlOperation, ctl_add, ctl_modify, ctl_delete, EpollEvent, failed, Epoll, no_event,
}
use vm_tools.Epoll.Context.{
  EventLoopContext, Result, epoll_event, put, retire, then_on, tick, modify_event, is_alive,
  is_add_exclusion, add_shared_event, park_then_insert, add_event, park_event, resume_event, detach,
  unpark, rm_event, dispatch, update_events, ctl_then,
}
use vm_tools.Epoll.Context.Cases.{Ctl-cases, ctl_then-cases}

module _ {H : Type 0} where
  abbrev pub Among : ℕ → List (EventNotifier H) → Type 0
  Among a [] = ⊥
  Among a (n ∷ gc) = (n.addr ≡ a) ⊎ Among a gc

  Among-append : (a : ℕ) (gc gc' : List (EventNotifier H)) → Among a gc → Among a (gc ++ gc')
  Among-append a [] gc' h = absurd h
  Among-append a (n ∷ gc) gc' (inl h) = inl h
  Among-append a (n ∷ gc) gc' (inr h) = inr (Among-append a gc gc' h)

  Among-last :
      (a : ℕ) (gc : List (EventNotifier H)) (n : EventNotifier H)
      → n.addr ≡ a
      → Among a (gc ++ n ∷ [])
  Among-last a [] n h = inl h
  Among-last a (m ∷ gc) n h = inr (Among-last a gc n h)

  -- The box at `a` is that of a notifier of the map, or waits to be dropped.
  abbrev pub Kept : {K : Type 0} → ℕ → EventLoopContext K H → Type 0
  Kept a c =
      ((fd : ℕ) × (n : EventNotifier H) × (get fd c.events ≡ some n) × (n.addr ≡ a)) ⊎ Among a c.gc

-- An error or nothing: neither a panic nor the end of the fuel.
abbrev pub Returns : Result (Unit {0}) → Type 0
Returns (ok _) = Unit
Returns (err x) = Unit
Returns panic = ⊥
Returns out_of_fuel = ⊥

-- An error of a call of the system carries its number.
abbrev pub HasNumbers : {K : Type 0} → Epoll K → Type 0
HasNumbers {K} e =
    (op : ControlOperation) (fd : ℕ) (ev : EpollEvent) (k : K) (x : IoError)
    → e.ctl op fd ev k ≡ failed x
    → (n : ℕ) × (x.raw_os_error ≡ some n)

pub eq_of_test : (a b : ℕ) → (a == b) ≡ true → a ≡ b
eq_of_test a b h = ground arith

same_box : {H : Type 0} (n m : EventNotifier H) → some n ≡ some m → n.addr ≡ m.addr
same_box n m h = ground arith

pub insert-absent :
    {H : Type 0} (own fd : ℕ) (n' n : EventNotifier H) (m : List (ℕ × EventNotifier H))
    → get own m ≡ none
    → get fd m ≡ some n
    → get own (insert fd n' m) ≡ none
insert-absent own fd n' n m absent found = elim (Bool-cases (own == fd)) [
  | inl e ↦
      let there : get own m ≡ get fd m = ap (λ i. get i m) (eq_of_test own fd e) in
      let clash : some n ≡ none = sym found ∙ sym there ∙ absent in ground arith
  | inr e ↦ rw (get-insert own fd n' m, e) absent
]

module _ {K H : Type 0} (a : ℕ) where
  pub Kept-put :
      (fd : ℕ) (n n' : EventNotifier H) (c : EventLoopContext K H)
      → get fd c.events ≡ some n
      → n'.addr ≡ n.addr
      → Kept a c
      → Kept a (put fd n' c)
  Kept-put fd n n' c found same (inl (j, m, at, addr)) = elim (Bool-cases (j == fd)) [
    | inl e ↦
        let there : get j c.events ≡ get fd c.events =
          ap (λ i. get i c.events) (eq_of_test j fd e) in
        inl (
          j,
          n',
          rw (get-insert j fd n' c.events, e) refl,
          same ∙ same_box n m (sym found ∙ sym there ∙ at) ∙ addr,
        )
    | inr e ↦ inl (j, m, rw (get-insert j fd n' c.events, e) at, addr)
  ]
  Kept-put fd n n' c found same (inr h) = inr h

  -- A notifier is put for a descriptor that has none.
  pub Kept-put_new :
      (fd : ℕ) (n : EventNotifier H) (c : EventLoopContext K H)
      → get fd c.events ≡ none
      → Kept a c
      → Kept a (put fd n c)
  Kept-put_new fd n c absent (inl (j, m, at, addr)) = elim (Bool-cases (j == fd)) [
    | inl e ↦
        let there : get j c.events ≡ get fd c.events =
          ap (λ i. get i c.events) (eq_of_test j fd e) in
        let clash : some m ≡ none = sym at ∙ there ∙ absent in ground arith
    | inr e ↦ inl (j, m, rw (get-insert j fd n c.events, e) at, addr)
  ]
  Kept-put_new fd n c absent (inr h) = inr h

  pub Kept-retire :
      (fd : ℕ) (n : EventNotifier H) (c : EventLoopContext K H)
      → get fd c.events ≡ some n
      → Kept a c
      → Kept a (retire fd n c)
  Kept-retire fd n c found (inl (j, m, at, addr)) = elim (Bool-cases (j == fd)) [
    | inl e ↦
        let there : get j c.events ≡ get fd c.events =
          ap (λ i. get i c.events) (eq_of_test j fd e) in
        inr (
          Among-last a c.gc (record n { status = removed })
            (same_box n m (sym found ∙ sym there ∙ at) ∙ addr))
    | inr e ↦ inl (j, m, rw (get-remove j fd c.events, e) at, addr)
  ]
  Kept-retire fd n c found (inr h) =
      inr (Among-append a c.gc (record n { status = removed } ∷ []) h)
