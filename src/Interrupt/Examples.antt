-- ===== src/Interrupt/Examples.antt =====
-- The unit test of hypervisor/src/interrupt.rs, and the theorems on the table at such inputs.
use vm_tools.Common.{
  ℕ, zero, suc, ◌/◌, ◌≤◌, ◌<◌, ◌^◌, ◌∙◌, ◌≡◌, refl, arith, true, false, not, ◌++◌, List, [], ◌∷◌,
  ◌%◌, ok, err, panic, filter,
}
use vm_tools.Common.Int.{pos, negsuc}
use vm_tools.Word.{uint}
use vm_tools.Word.View.{uint-BitView}
use vm_tools.Bitmap
use vm_tools.UtilErrors.{out_of_bound}
use vm_tools.Bitmap.Bits.{bit_at}
use vm_tools.Bitmap.Find.{find_next_zero}
use vm_tools.Interrupt.{
  KvmBindings, IrqRouteTable, MsiVector, msi, irqchip, word_ops, get_maximum_gsi_cnt, new,
  allocate_gsi, release_gsi, get_irq_route_entry, collect_entries, add_msi_route, remove_irq_route,
  remove_loop, update_msi_route, create_irq_route_entry, init_pic_master, init_pic_slave,
  init_ioapic, init_irq_route_table,
}
use vm_tools.Interrupt.Routes.{
  is_other, get_irq_route_entry_lem, remove_irq_route_lem, update_msi_route_lem,
}
use vm_tools.Interrupt.Gsi.{
  word_view, in_use, capacity, IsLowestFree, Marks, allocate_gsi_lem, allocate_gsi_twice,
  allocate_gsi_full, release_gsi_lem, allocate-release_gsi,
}
use vm_tools.Interrupt.Lifecycle.{
  IsOwned, GsiCall, allocate, release, add, run, AllRouteUsed, allocate-no_routes,
  release-allocate_gsi,
}
use vm_tools.Interrupt.Init.{
  init_irq_route_table_lem, init_irq_route_table_panics, allocate_gsi_past_maximum,
}

-- The values of the constants in the Linux headers.
abbrev linux : KvmBindings
linux = record {
  irq_routing_irqchip = 1;
  irq_routing_msi = 2;
  irqchip_pic_master = 0;
  irqchip_pic_slave = 1;
  irqchip_ioapic = 2;
}

abbrev vector : MsiVector
vector = record { msg_addr_lo = 0xfee00000; msg_addr_hi = 0; msg_data = 0x4021; masked = false }

-- Two routes, and the numbers 0 and 1 in use of 64.
abbrev table : IrqRouteTable
table = record {
  irq_routes =
      record { gsi = 1; type_ = 1; flags = 0; pad = 0; u = irqchip 2 1 }
      ∷ record { gsi = 0; type_ = 1; flags = 0; pad = 0; u = irqchip 2 0 }
      ∷ record { gsi = 1; type_ = 1; flags = 0; pad = 0; u = irqchip 0 1 }
      ∷ [];
  gsi_bitmap = record { words = 3 ∷ [] };
}

-- `test_alloc_and_release_gsi`.
alloc_and_release :
    let t0 = (init_irq_route_table linux (new (pos 2))).1 in
    let t1 = (allocate_gsi t0).1 in
    let t2 = (allocate_gsi t1).1 in
    ((allocate_gsi t0).0 ≡ ok 24)
    × ((allocate_gsi t1).0 ≡ ok 25)
    × ((allocate_gsi (release_gsi t2 24).1).0 ≡ ok 24)
unfolding uint Bitmap.new Bitmap.set Bitmap.clear Bitmap.contain find_next_zero get_maximum_gsi_cnt
    new allocate_gsi release_gsi remove_irq_route remove_loop create_irq_route_entry init_pic_master
    init_pic_slave init_ioapic init_irq_route_table
alloc_and_release = (refl, refl, refl)

remove_irq_route_lem_example :
    remove_irq_route table 1
    ≡ ok (record table { irq_routes = filter (is_other 1) table.irq_routes })
remove_irq_route_lem_example = remove_irq_route_lem table 1

update_msi_route_lem_example :
    ((update_msi_route linux table 1 vector).0 ≡ ok tt)
    × ((update_msi_route linux table 1 vector).1.gsi_bitmap ≡ table.gsi_bitmap)
    × (get_irq_route_entry (update_msi_route linux table 1 vector).1 1
        ≡ record { gsi = 1; type_ = 2; flags = 0; pad = 0; u = msi 0xfee00000 0 0x4021 } ∷ [])
update_msi_route_lem_example = update_msi_route_lem linux table 1 1 vector

table-IsLowestFree : IsLowestFree table 2
unfolding uint bit_at uint-BitView
table-IsLowestFree = record {
  from = omega arith;
  upto = omega arith;
  before = below;
  at = λ _. refl;
}
  where
    below : (n : ℕ) → 0 ≤ n → n < 2 → not (in_use table n) ≡ false
    below zero p q = refl
    below (suc zero) p q = refl
    below (suc (suc n)) p q = absurd (omega arith)

allocate_gsi_lem_example :
    ((allocate_gsi table).0 ≡ ok 2) × Marks 2 true table (allocate_gsi table).1
unfolding uint
allocate_gsi_lem_example = allocate_gsi_lem table 2 table-IsLowestFree (omega arith)

allocate_gsi_twice_example : 2 < 3
unfolding uint Bitmap.set Bitmap.contain find_next_zero allocate_gsi
allocate_gsi_twice_example = allocate_gsi_twice table 2 3 (omega arith) refl refl

release_gsi_lem_example :
    ((release_gsi table 1).0 ≡ ok tt)
    × (in_use (release_gsi table 1).1 0 ≡ in_use table 0)
    × (get_irq_route_entry (release_gsi table 1).1 0 ≡ get_irq_route_entry table 0)
unfolding uint
release_gsi_lem_example = release_gsi_lem table 1 0 (omega arith)

allocate-release_gsi_example : (h : ℕ) × ((allocate_gsi (release_gsi table 1).1).0 ≡ ok h) × (h ≤ 1)
unfolding uint
allocate-release_gsi_example = allocate-release_gsi table 1 (omega arith) (omega arith)

-- One word, and its 64 numbers are in use.
abbrev full_table : IrqRouteTable
full_table = record table { gsi_bitmap = record { words = word_ops.full ∷ [] } }

all_in_use : (n : ℕ) → n < capacity full_table → in_use full_table n ≡ true
unfolding bit_at uint uint-BitView
all_in_use n h =
    let word : n / 64 ≡ 0 = omega arith in rw word (word_view.bit-full (n % 64) ∙ ground arith)

full_capacity : capacity full_table ≡ 64
unfolding uint
full_capacity = refl

allocate_gsi_full_example : allocate_gsi full_table ≡ (err (out_of_bound 1 64), full_table)
unfolding uint
allocate_gsi_full_example = allocate_gsi_full full_table all_in_use

-- The number 9: pin 1 of the slave PIC, and pin 9 of the IOAPIC.
init_irq_route_table_lem_example :
    ((init_irq_route_table linux table).0 ≡ ok tt)
    × (get_irq_route_entry (init_irq_route_table linux table).1 9
        ≡ get_irq_route_entry table 9
          ++ record { gsi = 9; type_ = 1; flags = 0; pad = 0; u = irqchip 1 1 }
            ∷ record { gsi = 9; type_ = 1; flags = 0; pad = 0; u = irqchip 2 9 }
            ∷ [])
    × (in_use (init_irq_route_table linux table).1 9 ≡ true)
unfolding uint get_irq_route_entry collect_entries
init_irq_route_table_lem_example = init_irq_route_table_lem linux table 9 (omega arith)

init_irq_route_table_panics_example : (init_irq_route_table linux (new (negsuc 0))).0 ≡ panic
unfolding uint new get_maximum_gsi_cnt Bitmap.new
init_irq_route_table_panics_example =
    init_irq_route_table_panics linux (new (negsuc 0)) (omega arith)

allocate_gsi_past_maximum_example :
    (allocate_gsi (record { irq_routes = []; gsi_bitmap = record { words = 3 ∷ 0 ∷ [] } })).0
    ≡ ok (get_maximum_gsi_cnt (pos 2))
unfolding uint new get_maximum_gsi_cnt Bitmap.new bit_at uint-BitView
allocate_gsi_past_maximum_example =
    allocate_gsi_past_maximum (pos 2)
      (record { irq_routes = []; gsi_bitmap = record { words = 3 ∷ 0 ∷ [] } }) refl (omega arith)
      below refl
  where
    below :
        (n : ℕ)
        → n < 2
        → in_use (record { irq_routes = []; gsi_bitmap = record { words = 3 ∷ 0 ∷ [] } }) n ≡ true
    below zero q = refl
    below (suc zero) q = refl
    below (suc (suc n)) q = absurd (omega arith)

abbrev initialized : IrqRouteTable
initialized = (init_irq_route_table linux (new (pos 2))).1

room_at_first : 24 ≤ capacity (new (pos 2))
unfolding uint new get_maximum_gsi_cnt Bitmap.new
room_at_first = omega arith

-- The number 24 is handed out, given a route, and given back, and a release past the table fails.
abbrev history : List GsiCall
history = allocate ∷ add 24 vector ∷ release 24 ∷ release 999 ∷ []

abbrev used_before : IrqRouteTable
used_before = run linux history initialized

small_enough : capacity used_before ≤ 2 ^ 32
unfolding uint Bitmap.new Bitmap.set Bitmap.clear Bitmap.contain find_next_zero get_maximum_gsi_cnt
    new allocate_gsi add_msi_route release_gsi remove_irq_route remove_loop create_irq_route_entry
    init_pic_master init_pic_slave init_ioapic init_irq_route_table
small_enough = omega arith

history-AllRouteUsed : AllRouteUsed linux history initialized
unfolding uint bit_at uint-BitView Bitmap.new Bitmap.set Bitmap.contain find_next_zero
    get_maximum_gsi_cnt new allocate_gsi create_irq_route_entry init_pic_master init_pic_slave
    init_ioapic init_irq_route_table
history-AllRouteUsed = (tt, (refl, (tt, (tt, tt))))

again_number : (allocate_gsi used_before).0 ≡ ok 24
unfolding uint Bitmap.new Bitmap.set Bitmap.clear Bitmap.contain find_next_zero get_maximum_gsi_cnt
    new allocate_gsi add_msi_route release_gsi remove_irq_route remove_loop create_irq_route_entry
    init_pic_master init_pic_slave init_ioapic init_irq_route_table
again_number = refl

allocate-no_routes_example : get_irq_route_entry (allocate_gsi used_before).1 24 ≡ []
allocate-no_routes_example =
    allocate-no_routes linux (pos 2) history 24 room_at_first history-AllRouteUsed small_enough
      again_number

table-IsOwned : IsOwned table
unfolding uint bit_at uint-BitView
table-IsOwned zero free = ground arith
table-IsOwned (suc zero) free = ground arith
table-IsOwned (suc (suc n)) free = get_irq_route_entry_lem table (suc (suc n)) ∙ ground arith

next_number : (allocate_gsi table).0 ≡ ok 2
unfolding uint Bitmap.set Bitmap.contain find_next_zero allocate_gsi
next_number = refl

release-allocate_gsi_example :
    (in_use (release_gsi (allocate_gsi table).1 2).1 1 ≡ true)
    × (get_irq_route_entry (release_gsi (allocate_gsi table).1 2).1 1 ≡ get_irq_route_entry table 1)
unfolding uint bit_at uint-BitView
release-allocate_gsi_example =
    release-allocate_gsi table 2 1 table-IsOwned (omega arith) next_number
