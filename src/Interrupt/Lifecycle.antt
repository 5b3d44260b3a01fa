-- ===== src/Interrupt/Lifecycle.antt =====
-- Tables that a machine comes to: initialized, and then changed by calls of the public methods.
use native.Mathlib.Decide.{dec_lt}
use vm_tools.Common.{
  ℕ, ◌^◌, ◌≤◌, ◌<◌, ◌≡◌, sym, ap, subst, ◌∙◌, filter, filter-append, ltb, arith, true, false, List,
  [], ◌∷◌, ◌++◌, ◌%◌, refl, ◌==◌, ok,
}
use vm_tools.Common.Int.{ℤ}
use vm_tools.Bitmap.{Bitmap, Result}
use vm_tools.Bitmap.Single.{one_bit_out_of_bound}
use vm_tools.Bitmap.Bits.{bit_at}
use vm_tools.Interrupt.{
  KvmBindings, msi, MsiVector, IrqRouteTable, ioapic_num_pins, word_ops, new, allocate_gsi,
  release_gsi, update_msi_route, add_msi_route, init_irq_route_table, get_irq_route_entry,
}
use vm_tools.Interrupt.Routes.{
  update_msi_route_lem, get_irq_route_entry_lem, is_for, add_msi_route-other,
}
use vm_tools.Interrupt.Gsi.{
  in_use, capacity, word_view, IsLowestFree, allocate_gsi_lem, allocate_fails, allocated,
  lowest_free, release_gsi_lem,
}
use vm_tools.Interrupt.Init.{init_irq_route_table_lem, new_table}

same_routes-entries :
    (t t' : IrqRouteTable) (n : ℕ)
    → t'.irq_routes ≡ t.irq_routes
    → get_irq_route_entry t' n ≡ get_irq_route_entry t n
same_routes-entries t t' n e =
    rw (get_irq_route_entry_lem t' n, get_irq_route_entry_lem t n) (ap (filter (is_for n)) e)

same_bitmap-in_use :
    (t t' : IrqRouteTable) (n : ℕ) → t.gsi_bitmap ≡ t'.gsi_bitmap → in_use t n ≡ in_use t' n
same_bitmap-in_use t t' n e = ap (λ b. bit_at word_ops word_view b n) e

unused-other :
    (t : IrqRouteTable) (g n : ℕ) → in_use t g ≡ true → in_use t n ≡ false → (n == g) ≡ false
unused-other t g n used free = ground (arith, ap (in_use t) {x = n} {y = g})

-- Only a number in use has routes.
abbrev pub IsOwned : IrqRouteTable → Type 0
IsOwned t = (n : ℕ) → in_use t n ≡ false → get_irq_route_entry t n ≡ []

-- A call of a public method on a table, with any arguments.
pub data GsiCall : Type 0 where
  allocate : GsiCall
  release : ℕ → GsiCall
  update : ℕ → MsiVector → GsiCall
  add : ℕ → MsiVector → GsiCall

-- `release_gsi` past the numbers of the table fails, and leaves it as it was.
release_gsi-past : (t : IrqRouteTable) (g : ℕ) → capacity t ≤ g → (release_gsi t g).1 ≡ t
unfolding release_gsi
release_gsi-past t g past =
    let (_, fails, _) = one_bit_out_of_bound word_ops word_view t.gsi_bitmap g past in
    rw
      (
        release_gsi,
        ap (λ (x : Result (Unit {0}) × Bitmap ℕ). x.0) fails,
        ap (λ (x : Result (Unit {0}) × Bitmap ℕ). x.1) fails,
      )
      refl

module _ (k : KvmBindings) where
  abbrev pub call : GsiCall → IrqRouteTable → IrqRouteTable
  call allocate t = (allocate_gsi t).1
  call (release g) t = (release_gsi t g).1
  call (update g m) t = (update_msi_route k t g m).1
  call (add g m) t = (add_msi_route k t g m).1

  abbrev pub run : List GsiCall → IrqRouteTable → IrqRouteTable
  run [] t = t
  run (c ∷ cs) t = run cs (call c t)

  -- The number that a call gives a route, if it gives one, is in use.
  abbrev pub RoutesUsed : GsiCall → IrqRouteTable → Type 0
  RoutesUsed allocate t = Unit
  RoutesUsed (release g) t = Unit
  RoutesUsed (update g m) t = in_use t g ≡ true
  RoutesUsed (add g m) t = in_use t g ≡ true

  -- So it is at each of the calls, when its turn comes.
  abbrev pub AllRouteUsed : List GsiCall → IrqRouteTable → Type 0
  AllRouteUsed [] t = Unit
  AllRouteUsed (c ∷ cs) t = RoutesUsed c t × AllRouteUsed cs (call c t)

  call-IsOwned : (c : GsiCall) (t : IrqRouteTable) → RoutesUsed c t → IsOwned t → IsOwned (call c t)
  unfolding add_msi_route
  call-IsOwned allocate t _ owned n free =
      let (h, _, first) = lowest_free t in
      elim (dec_lt h (capacity t)) [
        | yes room ↦
            let (_, marks) = allocate_gsi_lem t h first room in
            same_routes-entries t (allocate_gsi t).1 n marks.same_routes
            ∙ owned n (ground (arith, marks.numbers n, free))
        | no full ↦
            let last : h ≡ capacity t = omega (arith, first.upto) in
            let fails = allocate_fails t (subst (λ x. IsLowestFree t x) last first) in
            let same : (allocate_gsi t).1 ≡ t = ap (λ (x : Result ℕ × IrqRouteTable). x.1) fails in
            subst (λ u. get_irq_route_entry u n ≡ []) (sym same)
              (owned n (subst (λ u. in_use u n ≡ false) same free))
      ]
  call-IsOwned (release g) t _ owned n free = elim (dec_lt g (capacity t)) [
    | yes room ↦
        let (_, marks, routes) = release_gsi_lem t g n room in
        ground (arith, marks, routes, owned n)
    | no past ↦
        let same = release_gsi-past t g (omega arith) in
        subst (λ u. get_irq_route_entry u n ≡ []) (sym same)
          (owned n (subst (λ u. in_use u n ≡ false) same free))
  ]
  call-IsOwned (update g m) t used owned n free =
      let (_, same, routes) = update_msi_route_lem k t g n m in
      let kept : in_use (update_msi_route k t g m).1 n ≡ in_use t n =
        same_bitmap-in_use (update_msi_route k t g m).1 t n same in
      let other : (n == g) ≡ false = unused-other t g n used (sym kept ∙ free) in
      rw (routes, other) (owned n (sym kept ∙ free))
  call-IsOwned (add g m) t used owned n free =
      let other : (n == g) ≡ false = unused-other t g n used free in
      add_msi_route-other k t g n m (ground (arith, other)) ∙ owned n free

  start-IsOwned :
      (irq_routing : ℤ)
      → ioapic_num_pins ≤ capacity (new irq_routing)
      → IsOwned (init_irq_route_table k (new irq_routing)).1
  start-IsOwned irq_routing room n free =
      let (_, routes, marks) = init_irq_route_table_lem k (new irq_routing) n room in
      let (_, unused, none_yet) = new_table irq_routing n in
      let past : ltb n 24 ≡ false = ground (arith, marks, unused, free) in
      routes ∙ rw none_yet (ground (arith, past))

  run-IsOwned :
      (cs : List GsiCall) (t : IrqRouteTable) → AllRouteUsed cs t → IsOwned t → IsOwned (run cs t)
  run-IsOwned [] t used owned = owned
  run-IsOwned (c ∷ cs) t (first, rest) owned =
      run-IsOwned cs (call c t) rest (call-IsOwned c t first owned)

  -- In the table that any calls leave of a new one that was initialized, with room for the 24 pins at
  -- first and at most 2^32 numbers: if each call that gave a number a route gave it to one in use at
  -- that time, a number that `allocate_gsi` hands out has no route.
  pub allocate-no_routes :
      (irq_routing : ℤ) (cs : List GsiCall) (g : ℕ)
      → ioapic_num_pins ≤ capacity (new irq_routing)
      → AllRouteUsed cs (init_irq_route_table k (new irq_routing)).1
      → capacity (run cs (init_irq_route_table k (new irq_routing)).1) ≤ 2 ^ 32
      → (allocate_gsi (run cs (init_irq_route_table k (new irq_routing)).1)).0 ≡ ok g
      → get_irq_route_entry (allocate_gsi (run cs (init_irq_route_table k (new irq_routing)).1)).1 g
        ≡ []
  allocate-no_routes irq_routing cs g room used small e =
      let fresh = (init_irq_route_table k (new irq_routing)).1 in
      let t = run cs fresh in
      let (first, within, marks) = allocated t g small e in
      let free : in_use t g ≡ false = ground (arith, first.at within) in
      same_routes-entries t (allocate_gsi t).1 g marks.same_routes
      ∙ run-IsOwned cs fresh used (start-IsOwned irq_routing room) g free

  -- The source does not ask for that: a route that is given to the lowest free number stays with it
  -- when `allocate_gsi` hands it out.
  allocate-add_msi_route :
      (t : IrqRouteTable) (g : ℕ) (m : MsiVector)
      → capacity t ≤ 2 ^ 32
      → (allocate_gsi t).0 ≡ ok g
      → ((allocate_gsi (add_msi_route k t g m).1).0 ≡ ok g)
        × (get_irq_route_entry (allocate_gsi (add_msi_route k t g m).1).1 g
            ≡ get_irq_route_entry t g
              ++ record {
                gsi = g;
                type_ = k.irq_routing_msi;
                flags = 0;
                pad = 0;
                u = msi m.msg_addr_lo m.msg_addr_hi m.msg_data;
              }
                ∷ [])
  unfolding add_msi_route
  allocate-add_msi_route t g m small e =
      let t' = (add_msi_route k t g m).1 in
      let (first, within, _) = allocated t g small e in
      let (done, marks) = allocate_gsi_lem t' g first within in
      let fits : g % 2 ^ 32 ≡ g = omega arith in
      let self : g == g ≡ true = ground arith in
      (
        done ∙ ap ok fits,
        same_routes-entries t' (allocate_gsi t').1 g marks.same_routes
            ∙ rw (get_irq_route_entry_lem t' g, get_irq_route_entry_lem t g)
                (rw (filter-append (is_for g) t.irq_routes, self) refl),
      )

-- In a table of at most 2^32 numbers in which only numbers in use have routes, the release of a number
-- that `allocate_gsi` just handed out gives back every mark and every route.
pub release-allocate_gsi :
    (t : IrqRouteTable) (g n : ℕ)
    → IsOwned t
    → capacity t ≤ 2 ^ 32
    → (allocate_gsi t).0 ≡ ok g
    → (in_use (release_gsi (allocate_gsi t).1 g).1 n ≡ in_use t n)
      × (get_irq_route_entry (release_gsi (allocate_gsi t).1 g).1 n ≡ get_irq_route_entry t n)
release-allocate_gsi t g n owned small e =
    let (first, within, marks) = allocated t g small e in
    let free : in_use t g ≡ false = ground (arith, first.at within) in
    let room : g < capacity (allocate_gsi t).1 = omega (arith, marks.same_capacity) in
    let (_, numbers, routes) = release_gsi_lem (allocate_gsi t).1 g n room in
    let entries = same_routes-entries t (allocate_gsi t).1 n marks.same_routes in
    let none_at : get_irq_route_entry t g ≡ [] = owned g free in
    (
      ground (arith, numbers, marks.numbers n, free, ap (in_use t) {x = n} {y = g}),
      ground (arith, routes, entries, none_at, ap (get_irq_route_entry t) {x = n} {y = g}),
    )
