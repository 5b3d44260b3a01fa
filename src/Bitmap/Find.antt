-- ===== src/Bitmap/Find.antt =====
-- `find_next_zero` and `find_next_bit` of utils/src/bitmap.rs. Their bodies are alike: the words from
-- that of the offset on are searched, one by one, for a bit that hits; a word equal to `skip` is passed
-- over. `skip` is `T::full()` with a hit on `false` in the one, and `T::zero()` with a hit on `true`
-- in the other.
pub mod Search
pub mod Laws
use vm_tools.Common.{
  ℕ, zero, suc, ◌+◌, ◌-◌, ◌*◌, ◌/◌, ◌%◌, Bool, not, get_elem?, if◌then◌else◌, Option, none, some,
  Outcome, ok, ◌>>=◌, index_or_panic,
}
use vm_tools.BitOps.{BitOps}
use vm_tools.Bitmap.{Bitmap, Result, size, vol, contain}

module _ {T : Type 0} (o : BitOps T) where
  -- `for j in offset..T::len()`, in word `i`: the first bit that hits, if one does.
  unfoldable pub search_word : Bitmap T → (Bool → Bool) → ℕ → ℕ → ℕ → Result (Option ℕ)
  search_word b hit i zero j = ok none
  search_word b hit i (suc rounds) j =
      let next = search_word b hit i rounds (j + 1) in
      do found ← contain o b (i * o.len + j); if hit found then ok (some (i * o.len + j)) else next

  -- `return Ok(…)` from inside the loop, or the rest of it.
  abbrev pub or_else : Option ℕ → Result ℕ → Result ℕ
  or_else (some n) rest = ok n
  or_else none rest = rest

  -- `for i in idx..size`. `continue` leaves `offset` as it is.
  unfoldable pub search_words : Bitmap T → T → (Bool → Bool) → ℕ → ℕ → ℕ → Result ℕ
  unfolding search_word
  search_words b skip hit zero i offset = ok (vol o b)
  search_words b skip hit (suc rounds) i offset =
      let passed = search_words b skip hit rounds (i + 1) offset in
      let next = search_words b skip hit rounds (i + 1) 0 in
      do
        w ← index_or_panic (get_elem? b.words i)
        if o.beq w skip
            then passed
            else (do found ← search_word b hit i (o.len - offset) offset; or_else found next)

  unfoldable pub find_next_zero : Bitmap T → ℕ → Result ℕ
  unfolding search_words
  find_next_zero b offset =
      search_words b o.full (λ x. not x) (size b - offset / o.len) (offset / o.len) (offset % o.len)

  unfoldable pub find_next_bit : Bitmap T → ℕ → Result ℕ
  unfolding search_words
  find_next_bit b offset =
      search_words b o.zero (λ x. x) (size b - offset / o.len) (offset / o.len) (offset % o.len)
