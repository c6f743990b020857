-- ===== src/Units.antt =====
-- units/units.go: sizes in bytes, how they are printed and parsed. A text is the list of its bytes; what
-- strconv.ParseInt and fmt's %d do with decimal numbers is written out.
pub mod Numbers
mod Multiples
pub mod Roundtrip
mod Tests
use virtle.Prelude.{
  ℕ, suc, zero, ◌+◌, ◌-◌, ◌*◌, ◌/◌, ◌%◌, ltb, leb, ◌==◌, Bool, true, false, not, ◌&&◌, ◌||◌, List,
  [], ◌∷◌, ◌++◌, Option, none, some, if◌then◌else◌,
}
use virtle.Prelude.Int.{
  ℤ, pos, negsuc, pos_part, neg_part, sub_ℕ, ltb_ℤ, eq_ℤ, ◌*ℤ◌, quot, wrap64, max_int64, min_int64,
}

abbrev pub tebibyte : ℕ
tebibyte = 1099511627776

abbrev pub gibibyte : ℕ
gibibyte = 1073741824

abbrev pub mebibyte : ℕ
mebibyte = 1048576

abbrev pub kibibyte : ℕ
kibibyte = 1024

-- A unit and its suffix.
pub record SizeUnit : Type 0 where
  pub unit : ℕ
  pub suffix : List ℕ

-- The units of `String`; `ParseBytes` also has the byte.
abbrev pub large_units : List SizeUnit
large_units =
    record { unit = tebibyte; suffix = 84 ∷ 105 ∷ 66 ∷ [] }
    ∷ record { unit = gibibyte; suffix = 71 ∷ 105 ∷ 66 ∷ [] }
    ∷ record { unit = mebibyte; suffix = 77 ∷ 105 ∷ 66 ∷ [] }
    ∷ record { unit = kibibyte; suffix = 75 ∷ 105 ∷ 66 ∷ [] }
    ∷ []

abbrev pub byte_unit : SizeUnit
byte_unit = record { unit = 1; suffix = 66 ∷ [] }

-- A number has no more digits than it counts, so the fuel of `digits` is enough.
unfoldable pub digits_from : ℕ → ℕ → List ℕ → List ℕ
digits_from zero n rest = rest
digits_from (suc fuel) n rest =
    let more = digits_from fuel (n / 10) ((48 + n % 10) ∷ rest) in
    if ltb n 10 then (48 + n) ∷ rest else more

unfoldable pub digits : ℕ → List ℕ
digits n = digits_from (suc n) n []

-- `%d` of an integer
unfoldable pub print_int : ℤ → List ℕ
print_int (pos n) = digits n
print_int (negsuc n) = 45 ∷ digits (suc n)

-- The loop of `String`.
unfoldable pub print_with : List SizeUnit → ℤ → List ℕ
print_with [] b = print_int b ++ byte_unit.suffix
print_with (u ∷ us) b =
    let later = print_with us b in
    if not (eq_ℤ b (pos 0)) && ((pos_part b + neg_part b) % u.unit == 0)
    then print_int (quot b u.unit) ++ u.suffix
    else later

-- `Bytes.String`
unfoldable pub to_string : ℤ → List ℕ
to_string b = print_with large_units b

-- Digits only, and how the digits so far go on.
unfoldable pub value_from : ℕ → List ℕ → Option ℕ
value_from n [] = some n
value_from n (c ∷ s) =
    let rest = value_from (n * 10 + (c - 48)) s in if leb 48 c && leb c 57 then rest else none

unfoldable pub value : List ℕ → Option ℕ
value [] = none
value (c ∷ s) = value_from 0 (c ∷ s)

unfoldable pub at_most : ℕ → Option ℕ → Option ℕ
at_most limit none = none
at_most limit (some n) = if leb n limit then some n else none

as_negative : Option ℕ → Option ℤ
as_negative none = none
as_negative (some zero) = some (pos 0)
as_negative (some (suc n)) = some (negsuc n)

as_positive : Option ℕ → Option ℤ
as_positive none = none
as_positive (some n) = some (pos n)

-- `strconv.ParseInt(raw, 10, 64)`, without its errors
unfoldable pub parse_int : List ℕ → Option ℤ
unfolding as_negative as_positive
parse_int [] = none
parse_int (c ∷ s) =
    if c == 45
    then as_negative (at_most 9223372036854775808 (value s))
    else if c == 43
    then as_positive (at_most 9223372036854775807 (value s))
    else as_positive (at_most 9223372036854775807 (value (c ∷ s)))

unfoldable pub same : List ℕ → List ℕ → Bool
same [] [] = true
same [] (p ∷ ps) = false
same (c ∷ s) [] = false
same (c ∷ s) (p ∷ ps) = (c == p) && same s ps

before : ℕ → Option (List ℕ) → Option (List ℕ)
before c none = none
before c (some s) = some (c ∷ s)

-- `strings.HasSuffix` and then `strings.TrimSuffix`
unfoldable pub cut_suffix : List ℕ → List ℕ → Option (List ℕ)
unfolding before
cut_suffix [] suffix = if same [] suffix then some [] else none
cut_suffix (c ∷ s) suffix =
    let rest = before c (cut_suffix s suffix) in if same (c ∷ s) suffix then some [] else rest

-- The errors of `ParseBytes`, which quote the text.
pub data Parsed : Type 0 where
  size : ℤ → Parsed
  overflows malformed : Parsed

unfoldable pub checked : ℕ → Option ℤ → Parsed
checked unit none = malformed
checked unit (some count) =
    if ltb_ℤ (quot max_int64 unit) count || ltb_ℤ count (quot min_int64 unit)
    then overflows
    else size (wrap64 (count *ℤ unit))

after_cut : ℕ → Option (List ℕ) → Parsed → Parsed
unfolding checked
after_cut unit none later = later
after_cut unit (some raw) later = checked unit (parse_int raw)

-- The loop of `ParseBytes`
unfoldable pub parse_with : List SizeUnit → List ℕ → Parsed
unfolding after_cut
parse_with [] value = malformed
parse_with (u ∷ us) value = after_cut u.unit (cut_suffix value u.suffix) (parse_with us value)

-- `ParseBytes`
unfoldable pub parse_bytes : List ℕ → Parsed
parse_bytes value = parse_with (large_units ++ byte_unit ∷ []) value
