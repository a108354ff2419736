-- ===== src/Sequence.antt =====
-- pkg/sequence/sequence.go: positions that a JavaScript number represents exactly, and their
-- successor.
pub mod Json
use maim.Common.{
  ℕ, ◌+◌, ◌-◌, ◌<◌, ◌≤◌, ◌↔◌, ◌⊎◌, ◌≡◌, Bool, ◌||◌, ◌&&◌, ◌+ℤ◌, if◌then◌else◌, arith, Result, ok,
  err, ◌>>◌, ℤ, pos, negsuc, ltb_ℤ, leb_ℤ, ◌≤ℤ◌,
}

pub data SequenceError : Type 0 where
  outside_range exhausted : SequenceError

abbrev pub max_sequence : ℕ
max_sequence = 9007199254740991

unfoldable pub validate : ℤ → Result SequenceError (Unit {0})
validate value =
    if ltb_ℤ value (pos 0) || ltb_ℤ (pos max_sequence) value then err outside_range else ok tt

abbrev is_max : ℤ → Bool
is_max value = leb_ℤ (pos max_sequence) value && leb_ℤ value (pos max_sequence)

unfoldable pub next : ℤ → Result SequenceError ℤ
unfolding validate
next value = do validate value; if is_max value then err exhausted else ok (value +ℤ pos 1)

-- Every position below the largest has a successor, the largest has none, and nothing outside the
-- range has one.
pub next_lem :
    (value : ℤ)
    → ((pos 0 ≤ℤ value) × (value ≤ℤ pos (max_sequence - 1)) × (next value ≡ ok (value +ℤ pos 1)))
      ⊎ ((value ≡ pos max_sequence) × (next value ≡ err exhausted))
      ⊎ (((value ≤ℤ negsuc 0) ⊎ (pos (max_sequence + 1) ≤ℤ value))
          × (next value ≡ err outside_range))
unfolding next
next_lem value = ground arith

-- A position that `next` returns is valid, and is one more than its argument.
pub next-validate :
    (value result : ℤ)
    → next value ≡ ok result
    → (validate value ≡ ok tt) × (validate result ≡ ok tt) × (result ≡ value +ℤ pos 1)
unfolding next
next-validate value result h = ground arith

-- At a stored position, which is a number.
pub next_pos :
    (n : ℕ)
    → ((n < max_sequence) × (next (pos n) ≡ ok (pos (n + 1))))
      ⊎ (next (pos n) ≡ err exhausted)
      ⊎ (next (pos n) ≡ err outside_range)
unfolding next
next_pos n = ground arith

-- The positions of the range, and only those, are valid.
pub validate_pos : (n : ℕ) → (validate (pos n) ≡ ok tt) ↔ (n ≤ max_sequence)
unfolding validate
validate_pos n = ground arith
