-- ===== src/Epoll/Context/Cases.antt =====
-- The cases of a call of the system, and of what comes behind it.
use vm_tools.Common.{
  ℕ, ◌≡◌, refl, arith, ◌⊎◌, inl, inr, ◌||◌, ◌==◌, Bool-cases, Option-cases, ok, err, panic,
  out_of_fuel,
}
use vm_tools.Epoll.Notifier.{EventNotifier, io}
use vm_tools.UtilErrors.{IoError}
use vm_tools.Epoll.System.{
  ctl_delete, no_event, ControlOperation, EpollEvent, CtlResult, done, failed, Epoll,
}
use vm_tools.Epoll.Context.{EventLoopContext, Result, ctl_then, then_on, detach, is_alive}

pub Ctl-cases :
    {K : Type 0} (r : CtlResult K) → ((k : K) × (r ≡ done k)) ⊎ ((x : IoError) × (r ≡ failed x))
Ctl-cases (done k) = inl (k, refl)
Ctl-cases (failed x) = inr (x, refl)

module _ {K H : Type 0} where
  pub then_on-ok :
      (x : Result (Unit {0}) × EventLoopContext K H)
      (next : EventLoopContext K H → Result (Unit {0}) × EventLoopContext K H)
      → (then_on x next).0 ≡ ok tt
      → (x.0 ≡ ok tt) × (then_on x next ≡ next x.1)
  then_on-ok (ok _, c) next h = (refl, refl)
  then_on-ok (err x, c) next h = absurd (ground arith)
  then_on-ok (panic, c) next h = absurd (ground arith)
  then_on-ok (out_of_fuel, c) next h = absurd (ground arith)

module _ {K H : Type 0} (e : Epoll K) where
  -- The goal behind a call of the system, for each of its results.
  pub ctl_then-cases :
      (P : Result (Unit {0}) × EventLoopContext K H → Type 0) (op : ControlOperation) (fd : ℕ)
      (ev : EpollEvent) (c : EventLoopContext K H)
      (next : EventLoopContext K H → Result (Unit {0}) × EventLoopContext K H)
      → ((k : K) → e.ctl op fd ev c.epoll ≡ done k → P (next (record c { epoll = k })))
      → ((x : IoError) → P (err (io x), c))
      → P (ctl_then e op fd ev c next)
  ctl_then-cases P op fd ev c next good bad = elim (Ctl-cases (e.ctl op fd ev c.epoll)) [
    | inl (k, q) ↦ rw (q, ctl_then) (good k q)
    | inr (x, q) ↦ rw (q, ctl_then) (bad x)
  ]

  -- Nothing but the interest list changes under `detach`.
  pub detach-events :
      (c : EventLoopContext K H) (n : EventNotifier H) → (detach e c n).1.events ≡ c.events
  unfolding detach
  detach-events c n = elim (Bool-cases (is_alive n.status)) [
    | inr dead ↦ rw (dead, detach) refl
    | inl live ↦ elim (Ctl-cases (e.ctl ctl_delete n.raw_fd no_event c.epoll)) [
      | inl (k, q) ↦ rw (live, q, detach) refl
      | inr (x, q) ↦ elim (Option-cases x.raw_os_error) [
        | inl unnumbered ↦ rw (live, q, unnumbered, detach) refl
        | inr (m, number) ↦
            elim (Bool-cases ((m == e.ebadf) || (m == e.enoent) || (m == e.eperm))) [
              | inl gone ↦ rw (live, q, number, gone, detach) refl
              | inr other ↦ rw (live, q, number, other, detach) refl
            ]
      ]
    ]
  ]
