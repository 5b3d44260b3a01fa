-- ===== src/Bitmap/BitSet.antt =====
-- What a bitmap promises: a set of numbers below a volume, the calls on it, and the reply to each.
use vm_tools.Common.{
  ℕ, ◌+◌, Bool, true, false, not, ◌&&◌, ◌||◌, List, [], ◌∷◌, ltb, leb, ◌==◌, if◌then◌else◌,
}
use vm_tools.Bitmap.Count.Laws.{count_in}

-- A call of a method, with its arguments.
pub data Call : Type 0 where
  set_bit : ℕ → Call
  clear_bit : ℕ → Call
  change_bit : ℕ → Call
  contain_bit : ℕ → Call
  set_bits : ℕ → ℕ → Call
  clear_bits : ℕ → ℕ → Call
  clear_all_bits : Call
  count_bits : ℕ → Call

-- What the caller sees: an error is told from a panic, and not from another error.
pub data Reply : Type 0 where
  done : Reply
  failed : Reply
  panicked : Reply
  stuck : Reply
  bit : Bool → Reply
  number : ℕ → Reply

-- The members of the set, and its volume.
pub record BitSet : Type 0 where
  pub volume : ℕ
  pub member : ℕ → Bool

abbrev pub update : BitSet → ℕ → Bool → BitSet
update s n c = record s { member = λ i. if i == n then c else s.member i }

-- The members from `lo` up to `hi`, within the volume, become `c`.
abbrev pub fill : BitSet → ℕ → ℕ → Bool → BitSet
fill s lo hi c = record s {
  member = λ i. if leb lo i && ltb i hi && ltb i s.volume then c else s.member i;
}

abbrev pub one : BitSet → ℕ → Bool → Reply × BitSet
one s n c = if ltb n s.volume then (done, update s n c) else (failed, s)

abbrev pub many : BitSet → ℕ → ℕ → Bool → Reply × BitSet
many s start len c = (
  if (len == 0) || leb (start + len) s.volume then done else failed,
  fill s start (start + len) c,
)

-- What a set does on a call.
abbrev pub promise : BitSet → Call → Reply × BitSet
promise s (set_bit n) = one s n true
promise s (clear_bit n) = one s n false
promise s (change_bit n) = one s n (not (s.member n))
promise s (contain_bit n) =
    (if ltb n s.volume then bit (s.member n) else if n == s.volume then panicked else failed, s)
promise s (set_bits start len) = many s start len true
promise s (clear_bits start len) = many s start len false
promise s clear_all_bits = (done, record s { member = λ _. false })
promise s (count_bits n) = (if ltb s.volume n then failed else number (count_in s.member 0 n), s)

abbrev pub promises : BitSet → List Call → List Reply × BitSet
promises s [] = ([], s)
promises s (c ∷ cs) = let (r, s') = promise s c in let (rs, s'') = promises s' cs in (r ∷ rs, s'')
