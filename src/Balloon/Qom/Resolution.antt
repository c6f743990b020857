-- ===== src/Balloon/Qom/Resolution.antt =====
-- Which path `resolveQOMPath` of the balloon controller finds.
use text.Mathlib.Text.{starts_with}
use virtle.Prelude.{
  subst, String, true, false, List, [], ◌∷◌, ◌++◌, str_eq, ◌≡◌, ◌≢◌, refl, ◌⊎◌, inl, inr, arith,
  Bool-cases, Option-cases, eq_iff, In, none, some, not, if◌then◌else◌,
}
use virtle.Prelude.Errors.{Result, ok, err}
use virtle.Balloon.Qom.{
  ObjectPropertyInfo, peripheral, peripheral_anon, child_path, contains, add_children, add_root,
  supports_guest_stats, first_supported, candidates, resolve_qom_path,
}

In-concat : (x y : String) (xs : List String) → In x xs → In x (xs ++ y ∷ [])
In-concat x y [] m = elim m [ ]
In-concat x y (z ∷ xs) (inl e) = inl e
In-concat x y (z ∷ xs) (inr m) = inr (In-concat x y xs m)

In-last : (y : String) (xs : List String) → In y (xs ++ y ∷ [])
In-last y [] = inl refl
In-last y (z ∷ xs) = inr (In-last y xs)

abbrev grown : String → String → ObjectPropertyInfo → List String → List String
grown device root p cs =
    if not (starts_with p.type "child<")
    then cs
    else if str_eq p.name device
    then child_path root p.name ∷ cs
    else cs ++ child_path root p.name ∷ []

grown_keeps :
    (device root x : String) (p : ObjectPropertyInfo) (cs : List String)
    → In x cs
    → In x (grown device root p cs)
grown_keeps device root x p cs m = elim (Bool-cases (starts_with p.type "child<")) [
  | inr e ↦ rw e m
  | inl e ↦ elim (Bool-cases (str_eq p.name device)) [
    | inl f ↦ rw (e, f) (inr m)
    | inr f ↦ rw (e, f) (In-concat x _ cs m)
  ]
]

grown_adds :
    (device root : String) (p : ObjectPropertyInfo) (cs : List String)
    → starts_with p.type "child<" ≡ true
    → In (child_path root p.name) (grown device root p cs)
grown_adds device root p cs e = elim (Bool-cases (str_eq p.name device)) [
  | inl f ↦ rw (e, f) (inl refl)
  | inr f ↦ rw (e, f) (In-last _ cs)
]

children_keep :
    (device root x : String) (props : List ObjectPropertyInfo) (cs : List String)
    → In x cs
    → In x (add_children device root props cs)
unfolding add_children
children_keep device root x [] cs m = m
children_keep device root x (p ∷ props) cs m =
    children_keep device root x props (grown device root p cs) (grown_keeps device root x p cs m)

children_add :
    (device root : String) (p : ObjectPropertyInfo) (props : List ObjectPropertyInfo)
    (cs : List String)
    → In p props
    → starts_with p.type "child<" ≡ true
    → In (child_path root p.name) (add_children device root props cs)
unfolding add_children
children_add device root p [] cs m t = elim m [ ]
children_add device root p (q ∷ props) cs (inl e) t =
    children_keep device root (child_path root p.name) props (grown device root q cs) (
      subst (λ (x : ObjectPropertyInfo). In (child_path root x.name) (grown device root q cs)) e
        (grown_adds device root q cs (rw e t)))
children_add device root p (q ∷ props) cs (inr m) t =
    children_add device root p props (grown device root q cs) m t

root_keeps :
    (device root x : String) (r : Result (List ObjectPropertyInfo)) (cs : List String)
    → In x cs
    → In x (add_root device root r cs)
unfolding add_root
root_keeps device root x (ok props) cs m = children_keep device root x props cs m
root_keeps device root x (err e) cs m = m

root_adds :
    (device root : String) (p : ObjectPropertyInfo) (r : Result (List ObjectPropertyInfo))
    (props : List ObjectPropertyInfo) (cs : List String)
    → r ≡ ok props
    → In p props
    → starts_with p.type "child<" ≡ true
    → In (child_path root p.name) (add_root device root r cs)
unfolding add_root
root_adds device root p r props cs e m t = rw e (children_add device root p props cs m t)

contains_self : (p : String) (seen : List String) → contains (p ∷ seen) p ≡ true
unfolding contains
contains_self p seen = ground (arith, eq_iff p p)

module _ (list : String → Result (List ObjectPropertyInfo)) where
  first_supported_sound :
      (seen l : List String) {p : String}
      → first_supported list seen l ≡ some p
      → (supports_guest_stats list p ≡ true) × In p l
  unfolding first_supported
  first_supported_sound seen [] h = cc
  first_supported_sound seen (q ∷ l) {p} h = elim (Bool-cases (contains seen q)) [
    | inl e ↦ let (s, m) = first_supported_sound seen l (rw (e, first_supported) at h) in (s, inr m)
    | inr e ↦ elim (Bool-cases (supports_guest_stats list q)) [
      | inl f ↦ let g : q ≡ p = cc (rw (e, f, first_supported) at h) in (rw (← g) f, inl g)
      | inr f ↦
          let (s, m) = first_supported_sound (q ∷ seen) l (rw (e, f, first_supported) at h) in
          (s, inr m)
    ]
  ]

  abbrev AllRefused : List String → Type 0
  AllRefused seen = (q : String) → contains seen q ≡ true → supports_guest_stats list q ≡ false

  none_refused : AllRefused []
  unfolding contains
  none_refused q h = cc

  refused_more :
      (q : String) (seen : List String)
      → supports_guest_stats list q ≡ false
      → AllRefused seen
      → AllRefused (q ∷ seen)
  unfolding contains
  refused_more q seen f all r h = elim (Bool-cases (str_eq q r)) [
    | inl e ↦ rw (← (eq_iff q r).0 e) f
    | inr e ↦ all r (rw e at h)
  ]

  first_supported_complete :
      (seen l : List String) (p : String)
      → AllRefused seen
      → In p l
      → supports_guest_stats list p ≡ true
      → first_supported list seen l ≢ none
  unfolding first_supported
  first_supported_complete seen [] p all m s = elim m [ ]
  first_supported_complete seen (q ∷ l) p all m s = elim (Bool-cases (contains seen q)) [
    | inl e ↦
        rw (e, first_supported) (first_supported_complete seen l p all (tail_of (all q e) m) s)
    | inr e ↦ elim (Bool-cases (supports_guest_stats list q)) [
      | inl f ↦ rw (e, f, first_supported) (λ x. cc)
      | inr f ↦
          rw (e, f, first_supported)
            (first_supported_complete (q ∷ seen) l p (refused_more q seen f all) (tail_of f m) s)
    ]
  ]
    where
      tail_of : supports_guest_stats list q ≡ false → In p (q ∷ l) → In p l
      tail_of f (inl e) = absurd (refuted f e)
        where
          refuted : supports_guest_stats list q ≡ false → q ≡ p → ⊥
          refuted f e = cc
      tail_of f (inr m) = m

  -- A path that is found has the balloon's two properties.
  resolve_sound :
      (device : String) {p : String}
      → resolve_qom_path list device ≡ ok p
      → supports_guest_stats list p ≡ true
  unfolding resolve_qom_path
  resolve_sound device {p} h =
      elim (Bool-cases (supports_guest_stats list (child_path peripheral device))) [
        | inl e ↦
            let g : child_path peripheral device ≡ p = cc (rw (e, resolve_qom_path) at h) in
            rw (← g) e
        | inr e ↦ elim (Option-cases (first_supported list [] (candidates list device))) [
          | inl n ↦ absurd (cc (rw (e, n) at h))
          | inr (q, f) ↦
              let g : q ≡ p = cc (rw (e, f) at h) in
              rw (← g) (first_supported_sound [] (candidates list device) f).0
        ]
      ]

  candidate_of_child :
      (device root : String) (child : ObjectPropertyInfo) (props : List ObjectPropertyInfo)
      → (root ≡ peripheral) ⊎ (root ≡ peripheral_anon)
      → list root ≡ ok props
      → In child props
      → starts_with child.type "child<" ≡ true
      → In (child_path root child.name) (candidates list device)
  unfolding candidates
  candidate_of_child device root child props (inl r) l m t =
      root_keeps device peripheral_anon _ (list peripheral_anon) _
        (rw r (root_adds device peripheral child (list peripheral) props _ (rw r at l) m t))
  candidate_of_child device root child props (inr r) l m t =
      rw r (root_adds device peripheral_anon child (list peripheral_anon) props _ (rw r at l) m t)

  -- If one of the two roots can be listed and has a child that has the balloon's two properties,
  -- then a path is found, and it has them.
  resolve_complete :
      (device root : String) (child : ObjectPropertyInfo) (props : List ObjectPropertyInfo)
      → (root ≡ peripheral) ⊎ (root ≡ peripheral_anon)
      → list root ≡ ok props
      → In child props
      → starts_with child.type "child<" ≡ true
      → supports_guest_stats list (child_path root child.name) ≡ true
      → (p : String) × (resolve_qom_path list device ≡ ok p) × (supports_guest_stats list p ≡ true)
  unfolding resolve_qom_path
  resolve_complete device root child props r l m t s =
      elim (Bool-cases (supports_guest_stats list (child_path peripheral device))) [
        | inl e ↦ (child_path peripheral device, rw e, e)
        | inr e ↦ elim (Option-cases (first_supported list [] (candidates list device))) [
          | inl n ↦ absurd (
              first_supported_complete [] (candidates list device) (child_path root child.name)
                none_refused (candidate_of_child device root child props r l m t) s n)
          | inr (q, f) ↦ (q, rw (e, f), (first_supported_sound [] (candidates list device) f).0)
        ]
      ]
