-- ===== src/Epoll/Timers/Laws.antt =====
-- The timers stay in the order of their times, and those that are due run.
use vm_tools.Common.{
  ℕ, suc, ◌+◌, ◌≤◌, ◌<◌, ◌≡◌, refl, ap, sym, arith, Bool, true, false, not, Bool-cases, inl, inr,
  some, List, [], ◌∷◌, ltb, leb, ◌==◌, if◌then◌else◌, take, drop, map, filter,
}
use vm_tools.Epoll.Timers.{
  Timer, insert_index, add_timer, del_from, del_timer, expired_nr, min_duration, run_timers,
}

module _ {F : Type 0} where
  -- Every timer of the list expires at `lo` or later, and they stand in the order of their times.
  abbrev pub IsOrdered : ℕ → List (Timer F) → Type 0
  IsOrdered lo [] = Unit
  IsOrdered lo (t ∷ rest) = (lo ≤ t.expire_time) × IsOrdered t.expire_time rest

  -- Insertion behind the timers that expire no later.
  abbrev pub insert : Timer F → List (Timer F) → List (Timer F)
  insert timer [] = timer ∷ []
  insert timer (t ∷ rest) =
      if ltb timer.expire_time t.expire_time then timer ∷ t ∷ rest else t ∷ insert timer rest

  insert_index-suc :
      (e i : ℕ) (ts : List (Timer F)) → insert_index e (suc i) ts ≡ suc (insert_index e i ts)
  unfolding insert_index
  insert_index-suc e i [] = refl
  insert_index-suc e i (t ∷ ts) =
      let next : suc i + 1 ≡ suc (i + 1) = omega arith in
      rw next (ground (arith, insert_index-suc e (i + 1) ts))

  add_timer-insert : (timer : Timer F) (ts : List (Timer F)) → add_timer timer ts ≡ insert timer ts
  unfolding add_timer insert_index
  add_timer-insert timer [] = refl
  add_timer-insert timer (t ∷ ts) = elim (Bool-cases (ltb timer.expire_time t.expire_time)) [
    | inl sooner ↦ rw sooner
    | inr later ↦
        rw later (
          rw (insert_index-suc timer.expire_time 0 ts)
            (ap (λ x. t ∷ x) (add_timer-insert timer ts)))
  ]

  insert-IsOrdered :
      (lo : ℕ) (timer : Timer F) (ts : List (Timer F))
      → lo ≤ timer.expire_time
      → IsOrdered lo ts
      → IsOrdered lo (insert timer ts)
  insert-IsOrdered lo timer [] h ord = (h, tt)
  insert-IsOrdered lo timer (t ∷ ts) h ord =
      elim (Bool-cases (ltb timer.expire_time t.expire_time)) [
        | inl sooner ↦ rw sooner (h, (ground arith, ord.1))
        | inr later ↦ rw later (ord.0, insert-IsOrdered t.expire_time timer ts (ground arith) ord.1)
      ]

  -- A timer added to ordered timers stands behind those that expire no later, and they stay ordered.
  pub add_timer-IsOrdered :
      (timer : Timer F) (ts : List (Timer F))
      → IsOrdered 0 ts
      → (add_timer timer ts ≡ insert timer ts) × IsOrdered 0 (add_timer timer ts)
  add_timer-IsOrdered timer ts ord =
      rw (add_timer-insert timer ts) (refl, insert-IsOrdered 0 timer ts (omega arith) ord)

  -- The list without the first timer of that id.
  abbrev pub remove_first : ℕ → List (Timer F) → List (Timer F)
  remove_first timer_id [] = []
  remove_first timer_id (t ∷ ts) = if t.id == timer_id then ts else t ∷ remove_first timer_id ts

  del_from-suc :
      (timer_id i : ℕ) (x : Timer F) (rest ts : List (Timer F))
      → del_from timer_id (suc i) rest (x ∷ ts) ≡ x ∷ del_from timer_id i rest ts
  unfolding del_from
  del_from-suc timer_id i x [] ts = refl
  del_from-suc timer_id i x (t ∷ rest) ts =
      let next : suc i + 1 ≡ suc (i + 1) = omega arith in
      let later = del_from-suc timer_id (i + 1) x rest ts in
      rw next
        (elim (Bool-cases (t.id == timer_id)) [ inl found ↦ rw found | inr other ↦ rw other later ])

  -- `del_timer` takes out the first timer of the id, and no other.
  del_timer_lem :
      (timer_id : ℕ) (ts : List (Timer F)) → del_timer timer_id ts ≡ remove_first timer_id ts
  unfolding del_timer del_from
  del_timer_lem timer_id [] = refl
  del_timer_lem timer_id (t ∷ ts) = elim (Bool-cases (t.id == timer_id)) [
    | inl found ↦ rw found
    | inr other ↦
        rw other
          (rw (del_from-suc timer_id 0 t ts ts) (ap (λ x. t ∷ x) (del_timer_lem timer_id ts)))
  ]

  -- Is the timer due at `now`?
  abbrev pub is_due : ℕ → Timer F → Bool
  is_due now t = leb t.expire_time now

  expired_nr-suc :
      (now nr : ℕ) (ts : List (Timer F)) → expired_nr now (suc nr) ts ≡ suc (expired_nr now nr ts)
  unfolding expired_nr
  expired_nr-suc now nr [] = refl
  expired_nr-suc now nr (t ∷ ts) =
      let next : suc nr + 1 ≡ suc (nr + 1) = omega arith in
      rw next (ground (arith, expired_nr-suc now (nr + 1) ts))

  none_due :
      (now lo : ℕ) (ts : List (Timer F))
      → now < lo
      → IsOrdered lo ts
      → (filter (is_due now) ts ≡ []) × (filter (λ t. not (is_due now t)) ts ≡ ts)
  none_due now lo [] h ord = (refl, refl)
  none_due now lo (t ∷ ts) h ord =
      let rest = none_due now t.expire_time ts (omega (arith, ord.0)) ord.1 in
      let late : is_due now t ≡ false = ground (arith, ord.0) in
      (rw late rest.0, rw late (ap (λ x. t ∷ x) rest.1))

  due_split :
      (now lo : ℕ) (ts : List (Timer F))
      → IsOrdered lo ts
      → (take (expired_nr now 0 ts) ts ≡ filter (is_due now) ts)
        × (drop (expired_nr now 0 ts) ts ≡ filter (λ t. not (is_due now t)) ts)
  unfolding expired_nr
  due_split now lo [] ord = (refl, refl)
  due_split now lo (t ∷ ts) ord = elim (Bool-cases (ltb now t.expire_time)) [
    | inl later ↦
        let late : is_due now t ≡ false = ground arith in
        let rest = none_due now t.expire_time ts (ground arith) ord.1 in
        rw (later, late) (sym rest.0, ap (λ x. t ∷ x) (sym rest.1))
    | inr due ↦
        let now_due : is_due now t ≡ true = ground arith in
        let rest = due_split now t.expire_time ts ord.1 in
        rw (due, now_due, expired_nr-suc now 0 ts) (ap (λ x. t ∷ x) rest.0, rest.1)
  ]

  -- Of ordered timers, `run_timers` calls those that are due, in their order, and leaves the others.
  pub run_timers_lem :
      (now : ℕ) (ts : List (Timer F))
      → IsOrdered 0 ts
      → run_timers now ts ≡ (
        map (λ (t : Timer F). t.func) (filter (is_due now) ts),
        filter (λ t. not (is_due now t)) ts,
      )
  unfolding run_timers
  run_timers_lem now ts ord = let (a, b) = due_split now 0 ts ord in rw (a, b)

  left_late :
      (now d : ℕ) (ts : List (Timer F))
      → min_duration (drop (expired_nr now 0 ts) ts) now ≡ some d
      → 0 < d
  unfolding expired_nr min_duration
  left_late now d [] e = ground arith
  left_late now d (t ∷ ts) e = elim (Bool-cases (ltb now t.expire_time)) [
    | inl late ↦ ground arith
    | inr due ↦ left_late now d ts (rw (due, expired_nr-suc now 0 ts) at e)
  ]

  -- A time to wait that `min_duration` gives behind `run_timers` at the same time is not 0.
  pub run_timers-min_duration :
      (now d : ℕ) (ts : List (Timer F)) → min_duration (run_timers now ts).1 now ≡ some d → 0 < d
  unfolding run_timers
  run_timers-min_duration now d ts e = left_late now d ts e
