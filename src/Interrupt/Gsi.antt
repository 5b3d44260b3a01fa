-- ===== src/Interrupt/Gsi.antt =====
-- Numbers that are handed out and given back.
use native.Mathlib.Decide.{dec_lt}
use vm_tools.Common.{
  ℕ, ◌*◌, ◌/◌, ◌%◌, ◌^◌, ◌≤◌, ◌<◌, ◌≡◌, inl, refl, sym, subst, ap, ◌∙◌, arith, Bool, true, false,
  not, [], ◌==◌, if◌then◌else◌, ok, err,
}
use vm_tools.BitOps.{BitView}
use vm_tools.Word.{u64}
use vm_tools.Word.View.{uint-BitView}
use vm_tools.Bitmap
use vm_tools.Bitmap.{Bitmap, Result, size, vol}
use vm_tools.UtilErrors.{out_of_bound}
use vm_tools.Bitmap.Bits.{bit_at}
use vm_tools.Bitmap.Single.{SetsBit, set_lem, clear_lem, one_bit_out_of_bound}
use vm_tools.Bitmap.Find.{find_next_zero}
use vm_tools.Bitmap.Find.Laws.{find_next_zero_lem}
use vm_tools.Bitmap.Find.Search.{IsFirst, IsFirst-unique}
use vm_tools.Interrupt.{IrqRouteTable, word_ops, allocate_gsi, release_gsi, get_irq_route_entry}
use vm_tools.Interrupt.Routes.{remove_irq_route_lem, without, entries-without}

abbrev pub word_view : BitView word_ops
word_view = uint-BitView u64

-- Is the number `n` in use?
abbrev pub in_use : IrqRouteTable → ℕ → Bool
in_use t n = bit_at word_ops word_view t.gsi_bitmap n

-- How many numbers the table has room for.
abbrev pub capacity : IrqRouteTable → ℕ
capacity t = vol word_ops t.gsi_bitmap

-- `g` is the lowest number that is free, or the capacity where none is.
abbrev pub IsLowestFree : IrqRouteTable → ℕ → Type 0
IsLowestFree t g = IsFirst (λ n. not (in_use t n)) 0 (capacity t) g

-- `t'` has the routes of `t`, and its numbers, but for `g`, which is in use as `c` says.
pub record Marks (g : ℕ) (c : Bool) (t t' : IrqRouteTable) : Type 0 where
  pub same_routes : t'.irq_routes ≡ t.irq_routes
  pub same_capacity : capacity t' ≡ capacity t
  pub numbers : (n : ℕ) → in_use t' n ≡ (if n == g then c else in_use t n)

-- `find_next_zero` from 0 on starts at the beginning of a word, and so misses nothing.
pub lowest_free :
    (t : IrqRouteTable)
    → (g : ℕ) × (find_next_zero word_ops t.gsi_bitmap 0 ≡ ok g) × IsLowestFree t g
lowest_free t =
    find_next_zero_lem word_ops word_view t.gsi_bitmap 0 (omega arith)
      (inl (omega (arith, word_view.len-pos)))

finds :
    (t : IrqRouteTable) (g : ℕ) → IsLowestFree t g → find_next_zero word_ops t.gsi_bitmap 0 ≡ ok g
finds t g first =
    let (g', found, first') = lowest_free t in
    found ∙ ap ok (IsFirst-unique (λ n. not (in_use t n)) 0 (capacity t) g' g first' first)

marked :
    (g : ℕ) (c : Bool) (t : IrqRouteTable) (b : Bitmap ℕ)
    → SetsBit word_ops word_view g c t.gsi_bitmap b
    → Marks g c t (record t { gsi_bitmap = b })
marked g c t b s = record {
  same_routes = refl;
  same_capacity = ap (λ (n : ℕ). n * word_ops.len) s.same_size;
  numbers = s.bits;
}

-- If the lowest free number is one of the table's, `allocate_gsi` hands it out, cut to 32 bits, and
-- marks that number alone; the routes stay.
pub allocate_gsi_lem :
    (t : IrqRouteTable) (g : ℕ)
    → IsLowestFree t g
    → g < capacity t
    → ((allocate_gsi t).0 ≡ ok (g % 2 ^ 32)) × Marks g true t (allocate_gsi t).1
unfolding allocate_gsi
allocate_gsi_lem t g first room =
    let (done, sets) = set_lem word_ops word_view t.gsi_bitmap g room in
    rw (allocate_gsi, finds t g first, done)
      (refl, marked g true t (Bitmap.set word_ops t.gsi_bitmap g).1 sets)

pub allocate_fails :
    (t : IrqRouteTable)
    → IsLowestFree t (capacity t)
    → allocate_gsi t ≡ (err (out_of_bound (capacity t / word_ops.len) (capacity t)), t)
unfolding allocate_gsi
allocate_fails t none_free =
    let fails =
      (one_bit_out_of_bound word_ops word_view t.gsi_bitmap (capacity t) (omega arith)).0 in
    rw (
      allocate_gsi,
      finds t (capacity t) none_free,
      ap (λ (x : Result (Unit {0}) × Bitmap ℕ). x.0) fails,
      ap (λ (x : Result (Unit {0}) × Bitmap ℕ). x.1) fails,
    )

-- With every number in use `allocate_gsi` fails, and leaves the table as it was.
pub allocate_gsi_full :
    (t : IrqRouteTable)
    → ((n : ℕ) → n < capacity t → in_use t n ≡ true)
    → allocate_gsi t ≡ (err (out_of_bound (capacity t / word_ops.len) (capacity t)), t)
allocate_gsi_full t full = allocate_fails t (record {
  from = omega arith;
  upto = omega arith;
  before = λ n p q. rw (full n q) refl;
  at = λ q. absurd (omega arith);
})

-- What a number that was handed out says of the table, where no number passes `u32`.
pub allocated :
    (t : IrqRouteTable) (g : ℕ)
    → capacity t ≤ 2 ^ 32
    → (allocate_gsi t).0 ≡ ok g
    → IsLowestFree t g × (g < capacity t) × Marks g true t (allocate_gsi t).1
allocated t g small e =
    let (g', _, first) = lowest_free t in
    elim (dec_lt g' (capacity t)) [
      | yes room ↦
          let (done, marks) = allocate_gsi_lem t g' first room in
          let fits : g' % 2 ^ 32 ≡ g' = omega arith in
          let same : g' ≡ g = ground (arith, sym done ∙ e) in
          subst (λ x. IsLowestFree t x × (x < capacity t) × Marks x true t (allocate_gsi t).1) same
            (first, room, marks)
      | no full ↦
          let last : g' ≡ capacity t = omega (arith, first.upto) in
          let fails = allocate_fails t (subst (λ x. IsLowestFree t x) last first) in
          absurd (cc (ap (λ (x : Result ℕ × IrqRouteTable). x.0) fails))
    ]

-- The routes do not hang on the bitmap.
same_entries :
    (t : IrqRouteTable) (b : Bitmap ℕ) (n : ℕ)
    → get_irq_route_entry (record t { gsi_bitmap = b }) n ≡ get_irq_route_entry t n
unfolding get_irq_route_entry
same_entries t b n = refl

released :
    (t : IrqRouteTable) (g : ℕ)
    → g < capacity t
    → release_gsi t g
      ≡ (ok tt, without (record t { gsi_bitmap = (Bitmap.clear word_ops t.gsi_bitmap g).1 }) g)
unfolding release_gsi
released t g room =
    let (done, _) = clear_lem word_ops word_view t.gsi_bitmap g room in
    rw (
      release_gsi,
      done,
      remove_irq_route_lem (record t { gsi_bitmap = (Bitmap.clear word_ops t.gsi_bitmap g).1 }) g,
    )

released-capacity :
    (t : IrqRouteTable) (g : ℕ) → g < capacity t → capacity (release_gsi t g).1 ≡ capacity t
released-capacity t g room =
    let (_, clears) = clear_lem word_ops word_view t.gsi_bitmap g room in
    rw (released t g room) (ap (λ (n : ℕ). n * word_ops.len) clears.same_size)

-- `release_gsi` of a number that the table has frees it and takes out its routes; other numbers keep
-- their mark and their routes.
pub release_gsi_lem :
    (t : IrqRouteTable) (g n : ℕ)
    → g < capacity t
    → ((release_gsi t g).0 ≡ ok tt)
      × (in_use (release_gsi t g).1 n ≡ (if n == g then false else in_use t n))
      × (get_irq_route_entry (release_gsi t g).1 n
          ≡ (if n == g then [] else get_irq_route_entry t n))
release_gsi_lem t g n room =
    let b = (Bitmap.clear word_ops t.gsi_bitmap g).1 in
    let (_, clears) = clear_lem word_ops word_view t.gsi_bitmap g room in
    rw (released t g room) (
      refl,
      clears.bits n,
      entries-without (record t { gsi_bitmap = b }) g n ∙ rw (same_entries t b n) refl,
    )

-- In a table of at most 2^32 numbers, the second of two numbers handed out in a row is above the first.
pub allocate_gsi_twice :
    (t : IrqRouteTable) (g h : ℕ)
    → capacity t ≤ 2 ^ 32
    → (allocate_gsi t).0 ≡ ok g
    → (allocate_gsi (allocate_gsi t).1).0 ≡ ok h
    → g < h
allocate_gsi_twice t g h small first second =
    let (low, room, marks) = allocated t g small first in
    let (low', room', _) = allocated (allocate_gsi t).1 h (rw (marks.same_capacity) small) second in
    elim (dec_lt g h) [
      | yes above ↦ above
      | no below ↦
          absurd (ground (arith, marks.numbers h, low'.at room', low.before h (omega arith)))
    ]

-- In a table of at most 2^32 numbers, behind the release of a number that the table has, `allocate_gsi`
-- succeeds with a number that is at most that one.
pub allocate-release_gsi :
    (t : IrqRouteTable) (g : ℕ)
    → g < capacity t
    → capacity t ≤ 2 ^ 32
    → (h : ℕ) × ((allocate_gsi (release_gsi t g).1).0 ≡ ok h) × (h ≤ g)
allocate-release_gsi t g room small =
    let t' = (release_gsi t g).1 in
    let (h, _, first) = lowest_free t' in
    let (_, free, _) = release_gsi_lem t g g room in
    let low : h ≤ g = elim (dec_lt g h) [
      | yes above ↦ absurd (ground (arith, first.before g (omega arith) above, free))
      | no below ↦ omega arith
    ] in
    let size' : capacity t' ≡ capacity t = released-capacity t g room in
    let (done, _) = allocate_gsi_lem t' h first (omega arith) in
    let fits : h % 2 ^ 32 ≡ h = omega arith in (h, done ∙ ap ok fits, low)
