-- ===== src/Units/Numbers.antt =====
-- Decimal numbers that are printed and parsed again.
use virtle.Prelude.{
  ℕ, suc, zero, ◌+◌, ◌-◌, ◌*◌, ◌/◌, ◌%◌, ◌≤◌, ◌<◌, ltb, leb, ◌==◌, true, false, ◌≡◌, refl, ap, sym,
  ◌∙◌, List, [], ◌∷◌, All, some, arith, Bool-cases, inl, inr,
}
use virtle.Prelude.Int.{ℤ, pos, negsuc, IsInt64}
use virtle.Units.{
  digits_from, digits, print_int, value_from, value, at_most, as_negative, as_positive, parse_int,
}

-- One digit.
value_digit :
    (n d : ℕ) (rest : List ℕ)
    → d < 10
    → value_from n ((48 + d) ∷ rest) ≡ value_from (n * 10 + d) rest
unfolding value_from
value_digit n d rest h =
    let e : n * 10 + (48 + d - 48) ≡ n * 10 + d = omega arith in
    let low : leb 48 (48 + d) ≡ true = ground arith in
    let high : leb (48 + d) 57 ≡ true = ground arith in rw (e, low, high) refl

-- The value of the digits of n, from which the value of the rest goes on.
value_digits :
    (fuel n : ℕ) (rest : List ℕ)
    → n < fuel
    → value_from 0 (digits_from fuel n rest) ≡ value_from n rest
unfolding digits_from
value_digits zero n rest h = absurd (omega arith)
value_digits (suc fuel) n rest h = elim (Bool-cases (ltb n 10)) [
  | inl small ↦
      rw small (value_digit 0 n rest (ground arith) ∙ ap (λ k. value_from k rest) (omega arith))
  | inr large ↦ rw large (
      value_digits fuel (n / 10) ((48 + n % 10) ∷ rest) (ground arith)
      ∙ value_digit (n / 10) (n % 10) rest (omega arith)
      ∙ ap (λ k. value_from k rest) (omega arith))
]

abbrev pub Shown : List ℕ → Type 0
Shown s = All (λ c. c ≤ 57) s

digits-Shown : (fuel n : ℕ) (rest : List ℕ) → Shown rest → Shown (digits_from fuel n rest)
unfolding digits_from
digits-Shown zero n rest h = h
digits-Shown (suc fuel) n rest h = elim (Bool-cases (ltb n 10)) [
  | inl small ↦ rw small (ground arith, h)
  | inr large ↦ rw large (digits-Shown fuel (n / 10) ((48 + n % 10) ∷ rest) (omega arith, h))
]

-- The digits start with one.
digits_first :
    (fuel n : ℕ) (rest : List ℕ)
    → n < fuel
    → (c : ℕ) × ((t : List ℕ) × ((digits_from fuel n rest ≡ c ∷ t) × (48 ≤ c)))
unfolding digits_from
digits_first zero n rest h = absurd (omega arith)
digits_first (suc fuel) n rest h = elim (Bool-cases (ltb n 10)) [
  | inl small ↦ rw small (48 + n, (rest, (refl, omega arith)))
  | inr large ↦ rw large (digits_first fuel (n / 10) ((48 + n % 10) ∷ rest) (ground arith))
]

value_cons : (s : List ℕ) (c : ℕ) (t : List ℕ) → s ≡ c ∷ t → value s ≡ value_from 0 s
unfolding value
value_cons s c t h = rw h refl

value_of_digits : (n : ℕ) → value (digits n) ≡ some n
unfolding digits value_from
value_of_digits n =
    let (c, (t, (h, low))) = digits_first (suc n) n [] (omega arith) in
    value_cons (digits n) c t h ∙ value_digits (suc n) n [] (omega arith)

within : (limit n : ℕ) → n ≤ limit → at_most limit (some n) ≡ some n
unfolding at_most
within limit n h = ground arith

parse_positive :
    (n c : ℕ) (t : List ℕ)
    → digits n ≡ c ∷ t
    → 48 ≤ c
    → n ≤ 9223372036854775807
    → parse_int (c ∷ t) ≡ some (pos n)
unfolding parse_int as_positive
parse_positive n c t e low h =
    let minus : (c == 45) ≡ false = ground arith in
    let plus : (c == 43) ≡ false = ground arith in
    let v : value (c ∷ t) ≡ some n = ap value (sym e) ∙ value_of_digits n in
    rw (minus, plus, v, within 9223372036854775807 n h) refl

pub parse_print : (b : ℤ) → IsInt64 b → parse_int (print_int b) ≡ some b
unfolding print_int digits parse_int as_negative
parse_print (pos n) h =
    let (c, (t, (e, low))) = digits_first (suc n) n [] (omega arith) in
    ap parse_int e ∙ parse_positive n c t e low (omega arith)
parse_print (negsuc n) h =
    rw (value_of_digits (suc n), within 9223372036854775808 (suc n) (omega arith)) refl

pub print_int-Shown : (b : ℤ) → Shown (print_int b)
unfolding print_int digits
print_int-Shown (pos n) = digits-Shown (suc n) n [] tt
print_int-Shown (negsuc n) = (omega arith, digits-Shown (suc (suc n)) (suc n) [] tt)
