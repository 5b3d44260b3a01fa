-- ===== src/Interrupt.antt =====
-- hypervisor/src/interrupt.rs, for `x86_64`: the table of interrupt routes, and the bitmap of the
-- global system interrupt numbers (GSI) that are in use. A method that takes `&mut self` returns its
-- result with the table that it leaves; the text that `with_context` adds to an error is left out.
pub mod Routes
pub mod Gsi
pub mod Init
pub mod Lifecycle
mod Examples
use vm_tools.Common.{
  ℕ, zero, suc, ◌+◌, ◌-◌, ◌%◌, ◌^◌, Bool, Option, none, some, List, [], ◌∷◌, ◌++◌, length,
  remove_at, position, ◌==◌, if◌then◌else◌, Outcome, ok, err, panic, out_of_fuel,
}
use vm_tools.Common.Int.{ℤ, pos, negsuc}
use vm_tools.BitOps.{BitOps}
use vm_tools.Word.{uint, u64}
use vm_tools.Bitmap
use vm_tools.Bitmap.{Bitmap, Result}
use vm_tools.Bitmap.Find.{find_next_zero}

-- The constants of the crate `kvm_bindings` that the table is made with.
pub record KvmBindings : Type 0 where
  pub irq_routing_irqchip : ℕ
  pub irq_routing_msi : ℕ
  pub irqchip_pic_master : ℕ
  pub irqchip_pic_slave : ℕ
  pub irqchip_ioapic : ℕ

-- The union `u` of an entry, by the member that was written.
pub data IrqChip : Type 0 where
  irqchip : ℕ → ℕ → IrqChip
  msi : ℕ → ℕ → ℕ → IrqChip

-- `kvm_bindings::kvm_irq_routing_entry`.
pub record IrqRouteEntry : Type 0 where
  pub gsi : ℕ
  pub type_ : ℕ
  pub flags : ℕ
  pub pad : ℕ
  pub u : IrqChip

pub record MsiVector : Type 0 where
  pub msg_addr_lo : ℕ
  pub msg_addr_hi : ℕ
  pub msg_data : ℕ
  pub masked : Bool

pub record IrqRouteTable : Type 0 where
  pub irq_routes : List IrqRouteEntry
  pub gsi_bitmap : Bitmap ℕ

-- The operations of the words of `gsi_bitmap`.
abbrev pub word_ops : BitOps ℕ
word_ops = uint u64

abbrev pub ioapic_num_pins : ℕ
ioapic_num_pins = 24

abbrev pub pic_master_pins : ℕ
pic_master_pins = 8

abbrev pub pic_slace_pins : ℕ
pic_slace_pins = 8

-- Over the `i32` that `kvmfd.check_extension_int(Cap::IrqRouting)` comes back with.
unfoldable pub get_maximum_gsi_cnt : ℤ → ℕ
get_maximum_gsi_cnt (pos n) = n % 2 ^ 32
get_maximum_gsi_cnt (negsuc n) = 0

unfoldable pub default : IrqRouteTable
default = record { irq_routes = []; gsi_bitmap = Bitmap.new word_ops 0 }

unfoldable pub new : ℤ → IrqRouteTable
new irq_routing =
    let gsi_count = get_maximum_gsi_cnt irq_routing in
    record { irq_routes = []; gsi_bitmap = Bitmap.new word_ops gsi_count }

-- `self.irq_routes.iter().enumerate().find(|(_, e)| e.gsi == gsi)`, as long as it finds one.
unfoldable pub remove_loop : ℕ → ℕ → List IrqRouteEntry → Result (List IrqRouteEntry)
remove_loop zero gsi routes = out_of_fuel
remove_loop (suc fuel) gsi routes = elim (position (λ (e : IrqRouteEntry). e.gsi == gsi) routes) [
  | none ↦ ok routes
  | some index ↦ remove_loop fuel gsi (remove_at routes index)
]

-- Each round takes an entry out, so one more round than entries is enough.
unfoldable pub remove_irq_route : IrqRouteTable → ℕ → Result IrqRouteTable
remove_irq_route t gsi = elim (remove_loop (suc (length t.irq_routes)) gsi t.irq_routes) [
  | ok routes ↦ ok (record t { irq_routes = routes })
  | err e ↦ err e
  | panic ↦ panic
  | out_of_fuel ↦ out_of_fuel
]

-- `for entry in self.irq_routes.iter()`, with the entries found so far.
unfoldable pub collect_entries : ℕ → List IrqRouteEntry → List IrqRouteEntry → List IrqRouteEntry
collect_entries gsi entries [] = entries
collect_entries gsi entries (entry ∷ rest) =
    collect_entries gsi (if gsi == entry.gsi then entries ++ entry ∷ [] else entries) rest

unfoldable pub get_irq_route_entry : IrqRouteTable → ℕ → List IrqRouteEntry
get_irq_route_entry t gsi = collect_entries gsi [] t.irq_routes

unfoldable pub allocate_gsi : IrqRouteTable → Result ℕ × IrqRouteTable
allocate_gsi t = elim (find_next_zero word_ops t.gsi_bitmap 0) [
  | ok free_gsi ↦
      let (done, bitmap) = Bitmap.set word_ops t.gsi_bitmap free_gsi in
      let t' : IrqRouteTable = record t { gsi_bitmap = bitmap } in
      elim done [
        | ok _ ↦ (ok (free_gsi % 2 ^ 32), t')
        | err e ↦ (err e, t')
        | panic ↦ (panic, t')
        | out_of_fuel ↦ (out_of_fuel, t')
      ]
  | err e ↦ (err e, t)
  | panic ↦ (panic, t)
  | out_of_fuel ↦ (out_of_fuel, t)
]

unfoldable pub release_gsi : IrqRouteTable → ℕ → Result (Unit {0}) × IrqRouteTable
release_gsi t gsi =
    let (done, bitmap) = Bitmap.clear word_ops t.gsi_bitmap gsi in
    let t' : IrqRouteTable = record t { gsi_bitmap = bitmap } in
    elim done [
      | ok _ ↦ elim (remove_irq_route t' gsi) [
        | ok t'' ↦ (ok tt, t'')
        | err e ↦ (err e, t')
        | panic ↦ (panic, t')
        | out_of_fuel ↦ (out_of_fuel, t')
      ]
      | err e ↦ (err e, t')
      | panic ↦ (panic, t')
      | out_of_fuel ↦ (out_of_fuel, t')
    ]

module _ (k : KvmBindings) where
  unfoldable pub create_irq_route_entry : ℕ → ℕ → ℕ → IrqRouteEntry
  create_irq_route_entry gsi chip pin = record {
    gsi = gsi;
    type_ = k.irq_routing_irqchip;
    flags = 0;
    pad = 0;
    u = irqchip chip pin;
  }

  unfoldable pub add_msi_route : IrqRouteTable → ℕ → MsiVector → Result (Unit {0}) × IrqRouteTable
  add_msi_route t gsi msi_vector =
      let kroute : IrqRouteEntry = record {
        gsi = gsi;
        type_ = k.irq_routing_msi;
        flags = 0;
        pad = 0;
        u = msi msi_vector.msg_addr_lo msi_vector.msg_addr_hi msi_vector.msg_data;
      } in
      (ok tt, record t { irq_routes = t.irq_routes ++ kroute ∷ [] })

  unfoldable pub update_msi_route :
      IrqRouteTable → ℕ → MsiVector → Result (Unit {0}) × IrqRouteTable
  update_msi_route t gsi msi_vector = elim (remove_irq_route t gsi) [
    | ok t' ↦ add_msi_route t' gsi msi_vector
    | err e ↦ (err e, t)
    | panic ↦ (panic, t)
    | out_of_fuel ↦ (out_of_fuel, t)
  ]

  -- The three loops of `init_irq_route_table`, at pin `i` with `rounds` rounds to go.
  unfoldable pub init_pic_master : ℕ → ℕ → List IrqRouteEntry → List IrqRouteEntry
  init_pic_master zero i routes = routes
  init_pic_master (suc rounds) i routes =
      init_pic_master rounds (i + 1)
        (routes ++ create_irq_route_entry i k.irqchip_pic_master i ∷ [])

  unfoldable pub init_pic_slave : ℕ → ℕ → List IrqRouteEntry → List IrqRouteEntry
  init_pic_slave zero i routes = routes
  init_pic_slave (suc rounds) i routes =
      init_pic_slave rounds (i + 1)
        (routes ++ create_irq_route_entry i k.irqchip_pic_slave (i - pic_master_pins) ∷ [])

  -- `self.gsi_bitmap.set(i as usize).unwrap()` panics where the bitmap has no bit `i`.
  unfoldable pub init_ioapic : ℕ → ℕ → IrqRouteTable → Result (Unit {0}) × IrqRouteTable
  init_ioapic zero i t = (ok tt, t)
  init_ioapic (suc rounds) i t =
      let routes = t.irq_routes ++ create_irq_route_entry i k.irqchip_ioapic i ∷ [] in
      let (done, bitmap) = Bitmap.set word_ops t.gsi_bitmap i in
      let t' : IrqRouteTable = record { irq_routes = routes; gsi_bitmap = bitmap } in
      let next = init_ioapic rounds (i + 1) t' in elim done [ ok _ ↦ next | _ ↦ (panic, t') ]

  unfoldable pub init_irq_route_table : IrqRouteTable → Result (Unit {0}) × IrqRouteTable
  init_irq_route_table t =
      let master = init_pic_master pic_master_pins 0 t.irq_routes in
      let slave = init_pic_slave pic_slace_pins pic_master_pins master in
      init_ioapic ioapic_num_pins 0 (record t { irq_routes = slave })
