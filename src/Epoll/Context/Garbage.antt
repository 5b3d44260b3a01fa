-- ===== src/Epoll/Context/Garbage.antt =====
-- `gc_clean`: its loop ends, and what it leaves.
use vm_tools.Common.{
  ℕ, zero, suc, ◌+◌, ◌-◌, ◌/◌, ◌<◌, ◌≡◌, inl, inr, arith, true, Bool-cases, List, [], ◌∷◌, leb,
  length, drop, ok,
}
use vm_tools.Epoll.Notifier.{EventNotifier}
use vm_tools.Epoll.Context.{EventLoopContext, gc_loop, gc_clean}

module _ {H : Type 0} where
  gc_loop_lem :
      (fuel pop_num : ℕ) (gc : List (EventNotifier H))
      → length gc < fuel
      → gc_loop fuel pop_num gc ≡ ok (drop ((length gc + 1 - pop_num) / 2) gc)
  unfolding gc_loop
  gc_loop_lem zero p gc h = ground arith
  gc_loop_lem (suc fuel) p [] h =
      let stop : leb 0 p ≡ true = ground arith in
      let none_left : (1 - p) / 2 ≡ 0 = omega arith in rw (stop, none_left)
  gc_loop_lem (suc fuel) p (n ∷ gc) h = elim (Bool-cases (leb (suc (length gc)) p)) [
    | inl stop ↦
        let none_left : (suc (length gc) + 1 - p) / 2 ≡ 0 = ground arith in rw (stop, none_left)
    | inr go ↦
        let left : (suc (length gc) + 1 - p) / 2 ≡ suc ((length gc + 1 - (p + 1)) / 2) =
          ground arith in
        rw (go, left) (gc_loop_lem fuel (p + 1) gc (omega (arith, h)))
  ]

module _ {K H : Type 0} where
  -- `gc_clean` ends, and drops the older half of the notifiers, rounded up, and no more.
  pub gc_clean_lem :
      (c : EventLoopContext K H)
      → gc_clean c ≡ ok (record c { gc = drop ((length c.gc + 1) / 2) c.gc })
  unfolding gc_clean
  gc_clean_lem c =
      let all : length c.gc + 1 - 0 ≡ length c.gc + 1 = omega arith in
      rw (gc_loop_lem (suc (length c.gc)) 0 c.gc (omega arith), gc_clean, all)
