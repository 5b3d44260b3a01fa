-- ===== src/Interrupt/Init.antt =====
-- `new` and `init_irq_route_table`: the routes and numbers that a table starts with.
use mathlib.Core.List.{append_assoc, append-nil}
use native.Mathlib.Nat.{sub-zero, mod-eq_of_lt}
use native.Mathlib.Decide.{dec_lt}
use vm_tools.Common.{
  ℕ, zero, suc, ◌+◌, ◌-◌, ◌*◌, ◌^◌, ◌≤◌, ◌<◌, ◌≡◌, refl, ap, ◌∙◌, arith, true, false, ◌&&◌, ◌||◌,
  List, [], ◌∷◌, ◌++◌, filter, filter-append, ltb, leb, if◌then◌else◌, ok, panic,
}
use vm_tools.Common.Int.{ℤ, pos, negsuc}
use vm_tools.Word.{uint}
use vm_tools.Bitmap
use vm_tools.Bitmap.{Bitmap, Result}
use vm_tools.Bitmap.Single.{set_lem, one_bit_out_of_bound, new_lem}
use vm_tools.Interrupt.{
  KvmBindings, irqchip, IrqRouteEntry, IrqRouteTable, word_ops, ioapic_num_pins, pic_master_pins,
  get_maximum_gsi_cnt, new, get_irq_route_entry, allocate_gsi, create_irq_route_entry,
  init_pic_master, init_pic_slave, init_ioapic, init_irq_route_table,
}
use vm_tools.Interrupt.Routes.{is_for, get_irq_route_entry_lem}
use vm_tools.Interrupt.Gsi.{word_view, in_use, capacity, IsLowestFree, allocate_gsi_lem}

module _ (k : KvmBindings) where
  -- The route of the number `g` to a pin of a chip.
  abbrev pub pin_route : ℕ → ℕ → ℕ → IrqRouteEntry
  pin_route g chip pin = record {
    gsi = g;
    type_ = k.irq_routing_irqchip;
    flags = 0;
    pad = 0;
    u = irqchip chip pin;
  }

  -- The routes of `rounds` pins of a chip, from number `i` on; the pin is the number less `off`.
  abbrev pins : ℕ → ℕ → ℕ → ℕ → List IrqRouteEntry
  pins chip off zero i = []
  pins chip off (suc rounds) i = pin_route i chip (i - off) ∷ pins chip off rounds (i + 1)

  -- The one route of `g` among those, where there is one.
  abbrev pub pin_entry : ℕ → ℕ → ℕ → ℕ → ℕ → List IrqRouteEntry
  pin_entry chip off lo hi g = if leb lo g && ltb g hi then pin_route g chip (g - off) ∷ [] else []

  filter-pins :
      (chip off rounds i g : ℕ)
      → filter (is_for g) (pins chip off rounds i) ≡ pin_entry chip off i (i + rounds) g
  filter-pins chip off zero i g = ground arith
  filter-pins chip off (suc rounds) i g = ground (
    arith,
    filter-pins chip off rounds (i + 1) g,
    ap (λ (x : ℕ). pin_route x chip (x - off)) {x = i} {y = g},
  )

  init_pic_master-eq :
      (rounds i : ℕ) (routes : List IrqRouteEntry)
      → init_pic_master k rounds i routes ≡ routes ++ pins k.irqchip_pic_master 0 rounds i
  unfolding init_pic_master create_irq_route_entry
  init_pic_master-eq zero i routes = rw append-nil
  init_pic_master-eq (suc rounds) i routes =
      init_pic_master-eq rounds (i + 1) (routes ++ pin_route i k.irqchip_pic_master i ∷ [])
      ∙ append_assoc routes (pin_route i k.irqchip_pic_master i ∷ [])
          (pins k.irqchip_pic_master 0 rounds (i + 1))
      ∙ rw sub-zero

  init_pic_slave-eq :
      (rounds i : ℕ) (routes : List IrqRouteEntry)
      → init_pic_slave k rounds i routes
        ≡ routes ++ pins k.irqchip_pic_slave pic_master_pins rounds i
  unfolding init_pic_slave create_irq_route_entry
  init_pic_slave-eq zero i routes = rw append-nil
  init_pic_slave-eq (suc rounds) i routes =
      init_pic_slave-eq rounds (i + 1)
        (routes ++ pin_route i k.irqchip_pic_slave (i - pic_master_pins) ∷ [])
      ∙ append_assoc routes (pin_route i k.irqchip_pic_slave (i - pic_master_pins) ∷ [])
          (pins k.irqchip_pic_slave pic_master_pins rounds (i + 1))

  -- The table that one round of the third loop leaves.
  abbrev pinned : ℕ → IrqRouteTable → IrqRouteTable
  pinned i t = record {
    irq_routes = t.irq_routes ++ pin_route i k.irqchip_ioapic i ∷ [];
    gsi_bitmap = (Bitmap.set word_ops t.gsi_bitmap i).1;
  }

  -- What the third loop leaves of a table with room for its pins.
  record Pinned (rounds i : ℕ) (t : IrqRouteTable) (r : Result (Unit {0}) × IrqRouteTable)
      : Type 0 where
    done : r.0 ≡ ok tt
    routes : r.1.irq_routes ≡ t.irq_routes ++ pins k.irqchip_ioapic 0 rounds i
    numbers : (n : ℕ) → in_use r.1 n ≡ (leb i n && ltb n (i + rounds) || in_use t n)
    room : capacity r.1 ≡ capacity t

  init_ioapic-Pinned :
      (rounds i : ℕ) (t : IrqRouteTable)
      → i + rounds ≤ capacity t
      → Pinned rounds i t (init_ioapic k rounds i t)
  unfolding init_ioapic create_irq_route_entry
  init_ioapic-Pinned zero i t h = record {
    done = refl;
    routes = rw append-nil;
    numbers = λ n. ground arith;
    room = refl;
  }
  init_ioapic-Pinned (suc rounds) i t h =
      let (done, sets) = set_lem word_ops word_view t.gsi_bitmap i (omega arith) in
      let same_room : capacity (pinned i t) ≡ capacity t =
        ap (λ (n : ℕ). n * word_ops.len) sets.same_size in
      let rest = init_ioapic-Pinned rounds (i + 1) (pinned i t) (omega arith) in
      rw (done, init_ioapic)
        (record {
          done = rest.done;
          routes =
              rest.routes
              ∙ append_assoc t.irq_routes (pin_route i k.irqchip_ioapic i ∷ [])
                  (pins k.irqchip_ioapic 0 rounds (i + 1))
              ∙ rw sub-zero;
          numbers = λ n. ground (arith, rest.numbers n, sets.bits n);
          room = rest.room ∙ same_room;
        })

  init_ioapic-panics :
      (rounds i : ℕ) (t : IrqRouteTable)
      → i ≤ capacity t
      → capacity t < i + rounds
      → (init_ioapic k rounds i t).0 ≡ panic
  unfolding init_ioapic create_irq_route_entry
  init_ioapic-panics zero i t p h = absurd (omega arith)
  init_ioapic-panics (suc rounds) i t p h = elim (dec_lt i (capacity t)) [
    | yes room ↦
        let (done, sets) = set_lem word_ops word_view t.gsi_bitmap i room in
        let same_room : capacity (pinned i t) ≡ capacity t =
          ap (λ (n : ℕ). n * word_ops.len) sets.same_size in
        rw (done, init_ioapic)
          (init_ioapic-panics rounds (i + 1) (pinned i t) (omega arith) (omega arith))
    | no full ↦
        let fails = (one_bit_out_of_bound word_ops word_view t.gsi_bitmap i (omega arith)).0 in
        rw (ap (λ (x : Result (Unit {0}) × Bitmap ℕ). x.0) fails, init_ioapic) refl
  ]

  -- In a table with room for 24 numbers, `init_irq_route_table` adds these routes for a number, each of type
  -- IRQCHIP and without flags, with the chip and the pin that `pin_entry` spells out: to the
  -- master PIC below 8, to the slave PIC from 8 up to 16, and to the IOAPIC below 24. It marks the
  -- numbers below 24, and keeps the routes and marks that there were.
  pub init_irq_route_table_lem :
      (t : IrqRouteTable) (g : ℕ)
      → ioapic_num_pins ≤ capacity t
      → ((init_irq_route_table k t).0 ≡ ok tt)
        × (get_irq_route_entry (init_irq_route_table k t).1 g
            ≡ ((get_irq_route_entry t g ++ pin_entry k.irqchip_pic_master 0 0 8 g)
                ++ pin_entry k.irqchip_pic_slave 8 8 16 g)
              ++ pin_entry k.irqchip_ioapic 0 0 24 g)
        × (in_use (init_irq_route_table k t).1 g ≡ (ltb g 24 || in_use t g))
  unfolding init_irq_route_table
  init_irq_route_table_lem t g h =
      let master = init_pic_master k 8 0 t.irq_routes in
      let before : IrqRouteTable = record t { irq_routes = init_pic_slave k 8 8 master } in
      let p = init_ioapic-Pinned 24 0 before h in
      (
        p.done,
        rw
            (
              get_irq_route_entry_lem (init_ioapic k 24 0 before).1 g,
              get_irq_route_entry_lem t g,
              p.routes,
              init_pic_slave-eq 8 8 master,
              init_pic_master-eq 8 0 t.irq_routes,
            )
            (simp (filter-append, filter-pins)),
        ground (arith, p.numbers g),
      )

  -- In a table with less room, it panics: the `unwrap` fails.
  pub init_irq_route_table_panics :
      (t : IrqRouteTable) → capacity t < ioapic_num_pins → (init_irq_route_table k t).0 ≡ panic
  unfolding init_irq_route_table
  init_irq_route_table_panics t h = init_ioapic-panics 24 0 _ (omega arith) (omega arith)

-- A new table has no route, 64 numbers for each that the kernel has room for, and none in use.
pub new_table :
    (irq_routing : ℤ) (n : ℕ)
    → (capacity (new irq_routing) ≡ get_maximum_gsi_cnt irq_routing * 64)
      × (in_use (new irq_routing) n ≡ false)
      × (get_irq_route_entry (new irq_routing) n ≡ [])
unfolding new uint
new_table irq_routing n =
    let fresh = new_lem word_ops word_view (get_maximum_gsi_cnt irq_routing) in
    (ap (λ (x : ℕ). x * 64) fresh.0, fresh.1 n, get_irq_route_entry_lem (new irq_routing) n)

get_maximum_gsi_cnt-lt : (irq_routing : ℤ) → get_maximum_gsi_cnt irq_routing < 2 ^ 32
unfolding get_maximum_gsi_cnt
get_maximum_gsi_cnt-lt (pos n) = omega arith
get_maximum_gsi_cnt-lt (negsuc n) = omega arith

-- In a table as large as a new one, once all the numbers that the kernel has room for (one at least)
-- are in use and the next one is not, `allocate_gsi` hands out that next one.
pub allocate_gsi_past_maximum :
    (irq_routing : ℤ) (t : IrqRouteTable)
    → capacity t ≡ capacity (new irq_routing)
    → 0 < get_maximum_gsi_cnt irq_routing
    → ((n : ℕ) → n < get_maximum_gsi_cnt irq_routing → in_use t n ≡ true)
    → in_use t (get_maximum_gsi_cnt irq_routing) ≡ false
    → (allocate_gsi t).0 ≡ ok (get_maximum_gsi_cnt irq_routing)
allocate_gsi_past_maximum irq_routing t same some used free =
    let cnt = get_maximum_gsi_cnt irq_routing in
    let room : cnt < capacity t = omega (arith, same, (new_table irq_routing 0).0) in
    let first : IsLowestFree t cnt = record {
      from = omega arith;
      upto = omega (arith, room);
      before = λ n p q. rw (used n q) refl;
      at = λ q. rw free refl;
    } in
    let (done, _) = allocate_gsi_lem t cnt first room in
    done ∙ ap ok (mod-eq_of_lt (get_maximum_gsi_cnt-lt irq_routing))
