-- ===== src/Units/Roundtrip.antt =====
-- A size that is printed and parsed again.
use virtle.Prelude.{
  ℕ, ◌+◌, ◌%◌, ◌≤◌, ◌==◌, false, not, ◌&&◌, ◌≡◌, refl, ap, sym, ◌∙◌, List, [], ◌∷◌, ◌++◌, All,
  Option, none, some, arith, Bool-cases, inl, inr,
}
use virtle.Prelude.Int.{eq_ℤ, ℤ, pos, pos_part, neg_part, IsInt64, quot}
use virtle.Units.{
  kibibyte, gibibyte, tebibyte, mebibyte, SizeUnit, large_units, byte_unit, print_int, print_with,
  to_string, parse_int, same, before, cut_suffix, size, checked, after_cut, parse_with, parse_bytes,
}
use virtle.Units.Numbers.{Shown, print_int-Shown}
use virtle.Units.Multiples.{checked_lem}

before_all : List ℕ → Option (List ℕ) → Option (List ℕ)
unfolding before
before_all [] o = o
before_all (d ∷ ds) o = before d (before_all ds o)

before_some : (ds : List ℕ) → before_all ds (some []) ≡ some ds
unfolding before_all before
before_some [] = refl
before_some (d ∷ ds) = ap (before d) (before_some ds)

before_none : (ds : List ℕ) → before_all ds none ≡ none
unfolding before_all before
before_none [] = refl
before_none (d ∷ ds) = ap (before d) (before_none ds)

-- A suffix that starts with a letter is not found in the digits.
cut-append :
    (ds s ps : List ℕ) (p : ℕ)
    → Shown ds
    → 58 ≤ p
    → cut_suffix (ds ++ s) (p ∷ ps) ≡ before_all ds (cut_suffix s (p ∷ ps))
unfolding cut_suffix same before_all before
cut-append [] s ps p h k = refl
cut-append (d ∷ ds) s ps p h k =
    let other : (d == p) ≡ false = ground arith in rw (other, cut-append ds s ps p h.1 k) refl

-- Printed with a unit, a size is parsed with this unit by these units.
abbrev Parses : List SizeUnit → SizeUnit → Type 0
Parses us u =
    (1 ≤ u.unit)
    × ((ds : List ℕ) → Shown ds → parse_with us (ds ++ u.suffix) ≡ checked u.unit (parse_int ds))

quot_one : (b : ℤ) → quot b 1 ≡ b
unfolding quot
quot_one b = ground arith

round_lem :
    (all us : List SizeUnit) (b : ℤ)
    → All (Parses all) us
    → Parses all byte_unit
    → IsInt64 b
    → parse_with all (print_with us b) ≡ size b
unfolding print_with
round_lem all [] b hs (h, p) i =
    p (print_int b) (print_int-Shown b)
    ∙ ap (λ c. checked 1 (parse_int (print_int c))) (sym (quot_one b))
    ∙ checked_lem 1 b (omega arith) i (omega arith)
round_lem all (u ∷ us) b hs h i =
    elim (Bool-cases (not (eq_ℤ b (pos 0)) && ((pos_part b + neg_part b) % u.unit == 0))) [
      | inl c ↦ rw c (
          hs.0.1 (print_int (quot b u.unit)) (print_int-Shown (quot b u.unit))
          ∙ checked_lem u.unit b hs.0.0 i (ground arith))
      | inr c ↦ rw c (round_lem all us b hs.1 h i)
    ]

-- A unit whose suffix is not at the end.
skip_lem :
    (k p : ℕ) (ps : List ℕ) (us : List SizeUnit) (ds s : List ℕ)
    → 58 ≤ p
    → Shown ds
    → cut_suffix s (p ∷ ps) ≡ none
    → parse_with (record { unit = k; suffix = p ∷ ps } ∷ us) (ds ++ s) ≡ parse_with us (ds ++ s)
unfolding parse_with after_cut
skip_lem k p ps us ds s l h c =
    rw (cut-append ds s ps p h l ∙ ap (before_all ds) c ∙ before_none ds) refl

take_lem :
    (k p : ℕ) (ps : List ℕ) (us : List SizeUnit) (ds s : List ℕ)
    → 58 ≤ p
    → Shown ds
    → cut_suffix s (p ∷ ps) ≡ some []
    → parse_with (record { unit = k; suffix = p ∷ ps } ∷ us) (ds ++ s) ≡ checked k (parse_int ds)
unfolding parse_with after_cut
take_lem k p ps us ds s l h c =
    rw (cut-append ds s ps p h l ∙ ap (before_all ds) c ∙ before_some ds) refl

-- The units of `ParseBytes` from each one on.
abbrev units_5 : List SizeUnit
units_5 = byte_unit ∷ []

abbrev units_4 : List SizeUnit
units_4 = record { unit = kibibyte; suffix = 75 ∷ 105 ∷ 66 ∷ [] } ∷ units_5

abbrev units_3 : List SizeUnit
units_3 = record { unit = mebibyte; suffix = 77 ∷ 105 ∷ 66 ∷ [] } ∷ units_4

abbrev units_2 : List SizeUnit
units_2 = record { unit = gibibyte; suffix = 71 ∷ 105 ∷ 66 ∷ [] } ∷ units_3

abbrev units_1 : List SizeUnit
units_1 = record { unit = tebibyte; suffix = 84 ∷ 105 ∷ 66 ∷ [] } ∷ units_2

abbrev ib : List ℕ
ib = 105 ∷ 66 ∷ []

tebibyte-Parses : Parses units_1 (record { unit = tebibyte; suffix = 84 ∷ ib })
unfolding cut_suffix same before
tebibyte-Parses =
    (omega arith, λ ds h. take_lem tebibyte 84 ib units_2 ds (84 ∷ ib) (omega arith) h refl)

gibibyte-Parses : Parses units_1 (record { unit = gibibyte; suffix = 71 ∷ ib })
unfolding cut_suffix same before
gibibyte-Parses = (
  omega arith,
  λ ds h.
      skip_lem tebibyte 84 ib units_2 ds (71 ∷ ib) (omega arith) h refl
      ∙ take_lem gibibyte 71 ib units_3 ds (71 ∷ ib) (omega arith) h refl,
)

-- Past the first two units.
skip_2 :
    (ds s : List ℕ)
    → Shown ds
    → cut_suffix s (84 ∷ ib) ≡ none
    → cut_suffix s (71 ∷ ib) ≡ none
    → parse_with units_1 (ds ++ s) ≡ parse_with units_3 (ds ++ s)
skip_2 ds s h t g =
    skip_lem tebibyte 84 ib units_2 ds s (omega arith) h t
    ∙ skip_lem gibibyte 71 ib units_3 ds s (omega arith) h g

mebibyte-Parses : Parses units_1 (record { unit = mebibyte; suffix = 77 ∷ ib })
unfolding cut_suffix same before
mebibyte-Parses = (
  omega arith,
  λ ds h.
      skip_2 ds (77 ∷ ib) h refl refl
      ∙ take_lem mebibyte 77 ib units_4 ds (77 ∷ ib) (omega arith) h refl,
)

kibibyte-Parses : Parses units_1 (record { unit = kibibyte; suffix = 75 ∷ ib })
unfolding cut_suffix same before
kibibyte-Parses = (
  omega arith,
  λ ds h.
      skip_2 ds (75 ∷ ib) h refl refl
      ∙ skip_lem mebibyte 77 ib units_4 ds (75 ∷ ib) (omega arith) h refl
      ∙ take_lem kibibyte 75 ib units_5 ds (75 ∷ ib) (omega arith) h refl,
)

byte-Parses : Parses units_1 byte_unit
unfolding cut_suffix same before
byte-Parses = (
  omega arith,
  λ ds h.
      skip_2 ds (66 ∷ []) h refl refl
      ∙ skip_lem mebibyte 77 ib units_4 ds (66 ∷ []) (omega arith) h refl
      ∙ skip_lem kibibyte 75 ib units_5 ds (66 ∷ []) (omega arith) h refl
      ∙ take_lem 1 66 [] [] ds (66 ∷ []) (omega arith) h refl,
)

-- Any size that an int64 holds, negative ones and zero too, is printed as a text that is parsed as this
-- size.
pub parse_bytes-to_string : (b : ℤ) → IsInt64 b → parse_bytes (to_string b) ≡ size b
unfolding parse_bytes to_string
parse_bytes-to_string b i =
    round_lem units_1 large_units b
      (tebibyte-Parses, (gibibyte-Parses, (mebibyte-Parses, (kibibyte-Parses, tt)))) byte-Parses i
