-- ===== src/Manifest/Checked.antt =====
-- What a validation comes to: Go's nil or an error, or a panic of the code.
use virtle.Prelude.{
  arith, ℕ, suc, Bool, true, false, ◌≡◌, refl, List, [], ◌∷◌, Option, none, some, if◌then◌else◌,
  All,
}
use virtle.Prelude.Errors.{Error}

pub data Checked : Type 0 where
  passed : Checked
  refused : Error → Checked
  panicked : Checked

-- `if err := ...; err != nil { return err }`, and what follows.
abbrev pub followed : Checked → Checked → Checked
followed passed next = next
followed (refused e) next = refused e
followed panicked next = panicked

-- One test of a function or of a switch.
abbrev pub refuse_if : Bool → Error → Checked
refuse_if b e = if b then refused e else passed

abbrev pub from_error : Option Error → Checked
from_error none = passed
from_error (some e) = refused e

-- Tests one after another.
abbrev pub in_order : List Checked → Checked
in_order [] = passed
in_order (c ∷ cs) = followed c (in_order cs)

-- A loop whose body has the index.
unfoldable pub each {ℓ} : {A : Type ℓ} → (ℕ → A → Checked) → ℕ → List A → Checked
each check i [] = passed
each check i (x ∷ xs) = followed (check i x) (each check (suc i) xs)

pub followed-passed : (c d : Checked) → followed c d ≡ passed → (c ≡ passed) × (d ≡ passed)
followed-passed passed d e = (refl, e)
followed-passed (refused f) d e = absurd (ground arith)
followed-passed panicked d e = absurd (ground arith)

-- Every test of a list that passes passes.
pub in_order-passed : (cs : List Checked) → in_order cs ≡ passed → All (λ c. c ≡ passed) cs
in_order-passed [] e = tt
in_order-passed (c ∷ cs) e =
    let p = followed-passed c (in_order cs) e in (p.0, in_order-passed cs p.1)

pub refuse_if-passed : (b : Bool) (e : Error) → refuse_if b e ≡ passed → b ≡ false
refuse_if-passed true e p = absurd (ground arith)
refuse_if-passed false e p = refl

-- What the body of a loop that passes shows of each element.
pub each-passed {ℓ} :
    {A : Type ℓ} (P : A → Type 0) (check : ℕ → A → Checked)
    → ((i : ℕ) (x : A) → check i x ≡ passed → P x)
    → (i : ℕ) (xs : List A) → each check i xs ≡ passed
    → All P xs
unfolding each
each-passed P check h i [] e = tt
each-passed P check h i (x ∷ xs) e =
    let p = followed-passed (check i x) (each check (suc i) xs) e in
    (h i x p.0, each-passed P check h (suc i) xs p.1)
