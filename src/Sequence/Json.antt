-- ===== src/Sequence/Json.antt =====
-- ParseJSON of pkg/sequence/sequence.go: a position as a JSON number, in bytes. Of the JSON decoder and
-- of strconv.ParseInt stands here what a number that is accepted looks like: space around it, a sign
-- perhaps, and decimal digits without a leading zero. All other inputs are refused.
use maim.Common.{
  ℕ, zero, suc, ◌+◌, ◌-◌, ◌*◌, ◌/◌, ◌%◌, ◌≤◌, ◌<◌, ◌≡◌, refl, ◌∙◌, ap, Bool, true, false, ◌&&◌,
  ◌||◌, not, Option, none, some, List, [], ◌∷◌, ◌++◌, arith, Result, ok, err, ◌>>=◌, or_fail,
  if◌then◌else◌, ◌==◌, ltb, leb, Bool-cases, inl, inr, ℤ, pos, negsuc,
}
use maim.Sequence
use maim.Sequence.{max_sequence}

-- Space, tab, line feed and carriage return.
abbrev pub is_space : ℕ → Bool
is_space c = c == 32 || c == 9 || c == 10 || c == 13

abbrev pub is_digit : ℕ → Bool
is_digit c = leb 48 c && leb c 57

unfoldable pub skip_spaces : List ℕ → List ℕ
skip_spaces [] = []
skip_spaces (c ∷ cs) = if is_space c then skip_spaces cs else c ∷ cs

unfoldable pub all_spaces : List ℕ → Bool
all_spaces [] = true
all_spaces (c ∷ cs) = is_space c && all_spaces cs

-- The digits up to the first other byte, which must begin the space behind the number.
unfoldable pub parse_digits : ℕ → List ℕ → Option ℕ
unfolding all_spaces
parse_digits value [] = some value
parse_digits value (c ∷ cs) =
    let rest = parse_digits (value * 10 + (c - 48)) cs in
    if is_digit c then rest else if all_spaces (c ∷ cs) then some value else none

-- A literal has a digit, and no zero before another digit.
unfoldable pub parse_literal : List ℕ → Option ℕ
unfolding parse_digits
parse_literal [] = none
parse_literal (c ∷ []) = if is_digit c then some (c - 48) else none
parse_literal (c ∷ d ∷ cs) =
    if is_digit c && not (c == 48 && is_digit d) then parse_digits (c - 48) (d ∷ cs) else none

abbrev pub negated : ℕ → ℤ
negated zero = pos 0
negated (suc n) = negsuc n

-- ParseInt in 64 bits, with the sign in front of the literal.
unfoldable pub parse_integer : List ℕ → Option ℤ
unfolding parse_literal
parse_integer [] = none
parse_integer (c ∷ cs) =
    if c == 45 then opposite (parse_literal cs) else positive (parse_literal (c ∷ cs))
  where
    opposite : Option ℕ → Option ℤ
    opposite none = none
    opposite (some n) = if leb n 9223372036854775808 then some (negated n) else none

    positive : Option ℕ → Option ℤ
    positive none = none
    positive (some n) = if leb n 9223372036854775807 then some (pos n) else none

pub data ParseError : Type 0 where
  not_an_integer outside : ParseError

unfoldable pub parse_json : List ℕ → Result ParseError ℤ
unfolding skip_spaces parse_integer
parse_json raw = do
  integer ← or_fail (parse_integer (skip_spaces raw)) not_an_integer
  elim (Sequence.validate integer) [ ok u ↦ ok integer | err e ↦ err outside ]

-- What json.Marshal writes for a number: its decimal digits. The fuel bounds their count.
unfoldable pub format_digits : ℕ → ℕ → List ℕ
format_digits zero n = (n % 10 + 48) ∷ []
format_digits (suc fuel) n =
    let front = format_digits fuel (n / 10) in
    if ltb n 10 then (n + 48) ∷ [] else front ++ (n % 10 + 48) ∷ []

-- A position has sixteen digits at most.
unfoldable pub format_int : ℕ → List ℕ
unfolding format_digits
format_int n = format_digits 15 n

-- One more digit behind.
next_digit : Option ℕ → ℕ → Option ℕ
next_digit none c = none
next_digit (some v) c = some (v * 10 + (c - 48))

-- Only digits.
abbrev Digits : List ℕ → Type 0
Digits [] = Unit
Digits (c ∷ cs) = (is_digit c ≡ true) × Digits cs

Digits-append : (xs : List ℕ) (c : ℕ) → Digits xs → is_digit c ≡ true → Digits (xs ++ c ∷ [])
Digits-append [] c h k = (k, tt)
Digits-append (x ∷ xs) c h k = (h.0, Digits-append xs c h.1 k)

parse_digits-append :
    (v c : ℕ) (xs : List ℕ)
    → Digits xs
    → is_digit c ≡ true
    → parse_digits v (xs ++ c ∷ []) ≡ next_digit (parse_digits v xs) c
unfolding parse_digits next_digit
parse_digits-append v c [] h k = rw k refl
parse_digits-append v c (x ∷ xs) h k = rw (h.0) (parse_digits-append (v * 10 + (x - 48)) c xs h.1 k)

last_digit : (n : ℕ) → is_digit (n % 10 + 48) ≡ true
last_digit n = ground arith

small_digit : (n : ℕ) → ltb n 10 ≡ true → is_digit (n + 48) ≡ true
small_digit n h = ground arith

format_digits-Digits : (fuel n : ℕ) → Digits (format_digits fuel n)
unfolding format_digits
format_digits-Digits zero n = (last_digit n, tt)
format_digits-Digits (suc fuel) n = elim (Bool-cases (ltb n 10)) [
  | inl e ↦ rw e (small_digit n e, tt)
  | inr e ↦ rw e (Digits-append _ _ (format_digits-Digits fuel (n / 10)) (last_digit n))
]

-- The number has at most one digit more than the fuel.
abbrev Fits : ℕ → ℕ → Type 0
Fits zero n = n < 10
Fits (suc fuel) n = Fits fuel (n / 10)

parse-format_digits : (fuel n : ℕ) → Fits fuel n → parse_digits 0 (format_digits fuel n) ≡ some n
unfolding parse_digits format_digits next_digit
parse-format_digits zero n h = rw (last_digit n) (ap some (omega (arith, h)))
parse-format_digits (suc fuel) n h = elim (Bool-cases (ltb n 10)) [
  | inl e ↦ rw (e, small_digit n e) (ap some (omega arith))
  | inr e ↦ rw e (
      parse_digits-append 0 (n % 10 + 48) (format_digits fuel (n / 10))
        (format_digits-Digits fuel (n / 10)) (last_digit n)
      ∙ ap (λ v. next_digit v (n % 10 + 48)) (parse-format_digits fuel (n / 10) h)
      ∙ ap some (omega arith))
]

-- No zero leads.
abbrev Leads : List ℕ → Type 0
Leads [] = ⊥
Leads (c ∷ cs) = (c == 48) ≡ false

Leads-append : (xs : List ℕ) (c : ℕ) → Leads xs → Leads (xs ++ c ∷ [])
Leads-append [] c h = absurd h
Leads-append (x ∷ xs) c h = h

format_digits-Leads : (fuel n : ℕ) → Fits fuel n → 1 ≤ n → Leads (format_digits fuel n)
unfolding format_digits
format_digits-Leads zero n h k = ground (arith, h, k)
format_digits-Leads (suc fuel) n h k = elim (Bool-cases (ltb n 10)) [
  | inl e ↦ rw e (ground (arith, k))
  | inr e ↦ rw e (
      Leads-append (format_digits fuel (n / 10)) (n % 10 + 48)
        (format_digits-Leads fuel (n / 10) h (ground (arith, e))))
]

-- A single digit, or digits that no zero leads.
abbrev IsNumeral : List ℕ → Type 0
IsNumeral [] = ⊥
IsNumeral (c ∷ []) = Unit
IsNumeral (c ∷ d ∷ cs) = (c == 48) ≡ false

Leads-IsNumeral : (xs : List ℕ) → Leads xs → IsNumeral xs
Leads-IsNumeral [] h = h
Leads-IsNumeral (c ∷ []) h = tt
Leads-IsNumeral (c ∷ d ∷ cs) h = h

format_digits-IsNumeral : (fuel n : ℕ) → Fits fuel n → IsNumeral (format_digits fuel n)
unfolding format_digits
format_digits-IsNumeral zero n h = tt
format_digits-IsNumeral (suc fuel) n h = elim (Bool-cases (ltb n 10)) [
  | inl e ↦ rw e tt
  | inr e ↦ rw e (
      Leads-IsNumeral _ (
        Leads-append (format_digits fuel (n / 10)) (n % 10 + 48)
          (format_digits-Leads fuel (n / 10) h (ground (arith, e)))))
]

parse_literal-Digits :
    (xs : List ℕ) → Digits xs → IsNumeral xs → parse_literal xs ≡ parse_digits 0 xs
unfolding parse_literal parse_digits
parse_literal-Digits [] d i = absurd i
parse_literal-Digits (c ∷ []) d i = rw (d.0) (ap some (omega arith))
parse_literal-Digits (c ∷ e ∷ cs) d i =
    rw (d.0, i) (ap (λ v. parse_digits v (e ∷ cs)) (omega arith))

parse_integer-Digits :
    (xs : List ℕ) (n : ℕ)
    → Digits xs
    → IsNumeral xs
    → parse_digits 0 xs ≡ some n
    → n ≤ max_sequence
    → parse_integer (skip_spaces xs) ≡ some (pos n)
unfolding parse_integer skip_spaces
parse_integer-Digits [] n d i h b = absurd i
parse_integer-Digits (c ∷ cs) n d i h b =
    let not_space : is_space c ≡ false = ground (arith, d.0) in
    let not_sign : (c == 45) ≡ false = ground (arith, d.0) in
    let in_range : leb n 9223372036854775807 ≡ true = ground (arith, b) in
    rw (not_space, not_sign, parse_literal-Digits (c ∷ cs) d i, h, in_range) refl

Fits-max : (n : ℕ) → n ≤ max_sequence → Fits 15 n
Fits-max n h = omega arith

-- A position is read back from the number that is written for it.
pub parse_json-format_int : (n : ℕ) → n ≤ max_sequence → parse_json (format_int n) ≡ ok (pos n)
unfolding parse_json format_int Sequence.validate
parse_json-format_int n h =
    let fits = Fits-max n h in
    let read =
      parse_integer-Digits (format_digits 15 n) n (format_digits-Digits 15 n)
        (format_digits-IsNumeral 15 n fits) (parse-format_digits 15 n fits) h in
    rw read (ground (arith, h))
