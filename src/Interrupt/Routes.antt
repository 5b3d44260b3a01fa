-- ===== src/Interrupt/Routes.antt =====
-- The routes of the table: what `get_irq_route_entry` shows after routes are added and removed.
use mathlib.Core.List.{append-nil, append_assoc}
use native.Mathlib.Decide.{ℕ_discrete}
use vm_tools.Common.{
  ℕ, zero, suc, ◌<◌, ◌≡◌, inl, inr, refl, ap, ◌∙◌, arith, Bool, true, false, not, Option-cases,
  none, some, List, [], ◌∷◌, ◌++◌, length, remove_at, position, filter, filter-append, ◌==◌,
  if◌then◌else◌, ok,
}
use vm_tools.Interrupt.{
  KvmBindings, IrqRouteEntry, IrqRouteTable, MsiVector, msi, remove_loop, remove_irq_route,
  collect_entries, get_irq_route_entry, add_msi_route, update_msi_route,
}

-- Does an entry route the number `gsi`?
abbrev pub is_for : ℕ → IrqRouteEntry → Bool
is_for gsi e = e.gsi == gsi

abbrev pub is_other : ℕ → IrqRouteEntry → Bool
is_other gsi e = not (e.gsi == gsi)

module _ {ℓ} {A : Type ℓ} (p : A → Bool) where
  -- What `position` finds none of is in nobody's way; an item that it finds is not among the rest.
  position-none : (xs : List A) → position p xs ≡ none → filter (λ x. not (p x)) xs ≡ xs
  position-none [] h = refl
  position-none (x ∷ xs) h = ground (arith, position-none xs)

  position-some :
      (xs : List A) (i : ℕ)
      → position p xs ≡ some i
      → (filter (λ x. not (p x)) (remove_at xs i) ≡ filter (λ x. not (p x)) xs)
        × (suc (length (remove_at xs i)) ≡ length xs)
  position-some [] i h = cc
  position-some (x ∷ xs) zero h = (ground arith, refl)
  position-some (x ∷ xs) (suc i) h = ground (arith, position-some xs i)

-- With more fuel than entries, the loop takes out every entry for `gsi`, and no other.
remove_loop_lem :
    (fuel gsi : ℕ) (routes : List IrqRouteEntry)
    → length routes < fuel
    → remove_loop fuel gsi routes ≡ ok (filter (is_other gsi) routes)
unfolding remove_loop
remove_loop_lem zero gsi routes h = elim h [ ]
remove_loop_lem (suc fuel) gsi routes h = elim (Option-cases (position (is_for gsi) routes)) [
  | inl none_left ↦ rw (none_left, remove_loop, position-none (is_for gsi) routes none_left)
  | inr (i, found) ↦
      let (others, shorter) = position-some (is_for gsi) routes i found in
      rw (found, remove_loop)
        (remove_loop_lem fuel gsi (remove_at routes i) (omega arith) ∙ ap ok others)
]

-- `remove_irq_route` ends, and keeps the entries for other numbers, in their order.
pub remove_irq_route_lem :
    (t : IrqRouteTable) (gsi : ℕ)
    → remove_irq_route t gsi ≡ ok (record t { irq_routes = filter (is_other gsi) t.irq_routes })
unfolding remove_irq_route
remove_irq_route_lem t gsi =
    rw
      (remove_loop_lem (suc (length t.irq_routes)) gsi t.irq_routes (omega arith), remove_irq_route)

collect_entries_lem :
    (gsi : ℕ) (entries routes : List IrqRouteEntry)
    → collect_entries gsi entries routes ≡ entries ++ filter (is_for gsi) routes
unfolding collect_entries
collect_entries_lem gsi entries [] = rw append-nil
collect_entries_lem gsi entries (e ∷ rest) = elim (ℕ_discrete gsi e.gsi) [
  | yes eq ↦
      let t : (gsi == e.gsi) ≡ true = ground arith in
      let t' : (e.gsi == gsi) ≡ true = ground arith in
      rw (t, t')
        (collect_entries_lem gsi (entries ++ e ∷ []) rest
          ∙ append_assoc entries (e ∷ []) (filter (is_for gsi) rest))
  | no ne ↦
      let t : (gsi == e.gsi) ≡ false = ground arith in
      let t' : (e.gsi == gsi) ≡ false = ground arith in
      rw (t, t') (collect_entries_lem gsi entries rest)
]

-- `get_irq_route_entry` shows the entries for the number, in their order.
pub get_irq_route_entry_lem :
    (t : IrqRouteTable) (gsi : ℕ) → get_irq_route_entry t gsi ≡ filter (is_for gsi) t.irq_routes
unfolding get_irq_route_entry
get_irq_route_entry_lem t gsi = collect_entries_lem gsi [] t.irq_routes

filter-others :
    (gsi n : ℕ) (routes : List IrqRouteEntry)
    → filter (is_for n) (filter (is_other gsi) routes)
      ≡ (if n == gsi then [] else filter (is_for n) routes)
filter-others gsi n [] = ground arith
filter-others gsi n (e ∷ rest) = ground (arith, filter-others gsi n rest)

-- The table with no entry for `gsi`.
abbrev pub without : IrqRouteTable → ℕ → IrqRouteTable
without t gsi = record t { irq_routes = filter (is_other gsi) t.irq_routes }

updated :
    (k : KvmBindings) (t : IrqRouteTable) (gsi : ℕ) (m : MsiVector)
    → update_msi_route k t gsi m ≡ add_msi_route k (without t gsi) gsi m
unfolding update_msi_route
updated k t gsi m = rw (remove_irq_route_lem t gsi, update_msi_route)

-- After `update_msi_route` the number has the one route asked for, and other numbers have theirs.
pub update_msi_route_lem :
    (k : KvmBindings) (t : IrqRouteTable) (gsi n : ℕ) (m : MsiVector)
    → ((update_msi_route k t gsi m).0 ≡ ok tt)
      × ((update_msi_route k t gsi m).1.gsi_bitmap ≡ t.gsi_bitmap)
      × (get_irq_route_entry (update_msi_route k t gsi m).1 n ≡ (
          if n == gsi
          then record {
            gsi = gsi;
            type_ = k.irq_routing_msi;
            flags = 0;
            pad = 0;
            u = msi m.msg_addr_lo m.msg_addr_hi m.msg_data;
          }
            ∷ []
          else get_irq_route_entry t n))
unfolding add_msi_route
update_msi_route_lem k t gsi n m = rw (updated k t gsi m) (
  refl,
  refl,
  rw
      (
        get_irq_route_entry_lem (add_msi_route k (without t gsi) gsi m).1 n,
        get_irq_route_entry_lem t n,
      )
      (rw (filter-append (is_for n) (filter (is_other gsi) t.irq_routes), filter-others gsi n)
        (ground (arith, append-nil (filter (is_for n) t.irq_routes)))),
)

-- After `remove_irq_route` the number has no route, and other numbers have theirs.
pub entries-without :
    (t : IrqRouteTable) (gsi n : ℕ)
    → get_irq_route_entry (without t gsi) n ≡ (if n == gsi then [] else get_irq_route_entry t n)
entries-without t gsi n =
    rw (get_irq_route_entry_lem (without t gsi) n, get_irq_route_entry_lem t n)
      (filter-others gsi n t.irq_routes)

-- A number that `add_msi_route` is not asked for keeps its routes.
pub add_msi_route-other :
    (k : KvmBindings) (t : IrqRouteTable) (gsi n : ℕ) (m : MsiVector)
    → (gsi == n) ≡ false
    → get_irq_route_entry (add_msi_route k t gsi m).1 n ≡ get_irq_route_entry t n
unfolding add_msi_route
add_msi_route-other k t gsi n m other =
    rw (get_irq_route_entry_lem (add_msi_route k t gsi m).1 n, get_irq_route_entry_lem t n)
      (rw (filter-append (is_for n) t.irq_routes, other)
        (append-nil (filter (is_for n) t.irq_routes)))
