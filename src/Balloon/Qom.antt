-- ===== src/Balloon/Qom.antt =====
-- backend/qemu/internal/balloon/controller.go, `resolveQOMPath`: which object of QEMU's tree is the
-- balloon. `list` is what ListQOMProperties answers for a path; the tree does not change while the
-- path is resolved.
pub mod Resolution
use Prim.Native.String.{◌++◌ as append}
use text.Mathlib.Text.{starts_with}
use text.Mathlib.TextEquality.{eq_iff}
use virtle.Prelude.{
  String, Bool, true, false, not, ◌&&◌, ◌||◌, List, [], ◌∷◌, ◌++◌, str_eq, if◌then◌else◌, ◌≡◌, ◌≢◌,
  refl, ◌⊎◌, inl, inr, arith, Bool-cases, In, Option, none, some, sym, ap,
}
use virtle.Prelude.Errors.{Error, wrapf, str, end, plain, Result, ok, err}

pub record ObjectPropertyInfo : Type 0 where
  pub name : String
  pub type : String

abbrev pub qom_path_not_found : Error
qom_path_not_found = plain "balloon qom path not found"

unfoldable pub has_qom_property : List ObjectPropertyInfo → String → Bool
has_qom_property [] name = false
has_qom_property (p ∷ props) name = str_eq p.name name || has_qom_property props name

abbrev pub peripheral : String
peripheral = "/machine/peripheral"

abbrev pub peripheral_anon : String
peripheral_anon = "/machine/peripheral-anon"

abbrev pub child_path : String → String → String
child_path root name = append root (append "/" name)

-- Whether `seen` holds the path.
unfoldable pub contains : List String → String → Bool
contains [] p = false
contains (q ∷ seen) p = str_eq q p || contains seen p

-- The loop over the children that one root lists.
unfoldable pub add_children : String → String → List ObjectPropertyInfo → List String → List String
add_children device root [] candidates = candidates
add_children device root (p ∷ props) candidates = add_children device root props (
    if not (starts_with p.type "child<")
    then candidates
    else if str_eq p.name device
    then child_path root p.name ∷ candidates
    else candidates ++ child_path root p.name ∷ [])

-- A root that cannot be listed is skipped.
unfoldable pub add_root :
    String → String → Result (List ObjectPropertyInfo) → List String → List String
add_root device root (err e) candidates = candidates
add_root device root (ok props) candidates = add_children device root props candidates

has_both : Result (List ObjectPropertyInfo) → Bool
has_both (err e) = false
has_both (ok props) =
    has_qom_property props "guest-stats" && has_qom_property props "guest-stats-polling-interval"

module _ (list : String → Result (List ObjectPropertyInfo)) where
  unfoldable pub supports_guest_stats : String → Bool
  unfolding has_both
  supports_guest_stats path = has_both (list path)

  unfoldable pub first_supported : List String → List String → Option String
  first_supported seen [] = none
  first_supported seen (p ∷ candidates) = elim (contains seen p) [
    | true ↦ first_supported seen candidates
    | false ↦ elim (supports_guest_stats p) [
      | true ↦ some p
      | false ↦ first_supported (p ∷ seen) candidates
    ]
  ]

  unfoldable pub candidates : String → List String
  unfolding add_root
  candidates device =
      add_root device peripheral_anon (list peripheral_anon)
        (add_root device peripheral (list peripheral) (child_path peripheral device ∷ []))

  found : String → Option String → Result String
  found device (some p) = ok p
  found device none = err (wrapf "%w for %q" (str device end) qom_path_not_found)

  unfoldable pub resolve_qom_path : String → Result String
  unfolding found
  resolve_qom_path device =
      let expected = child_path peripheral device in
      if supports_guest_stats expected
      then ok expected
      else found device (first_supported [] (candidates device))
