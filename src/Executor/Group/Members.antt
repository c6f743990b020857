-- ===== src/Executor/Group/Members.antt =====
-- What the operations of internal/executor/group.go do to the members of a group.
use virtle.Prelude.{
  append_assoc, ap, ◌∙◌, sym, subst, Bool-cases, ℕ, ◌==◌, ◌≡◌, refl, ◌⊎◌, inl, inr, true, false,
  List, [], ◌∷◌, ◌++◌, Option, none, some, arith, In, All,
}
use virtle.Prelude.Errors.{Error, errors_join, non_nil}
use virtle.Executor.Process.{Process, stop_process}
use virtle.Executor.Process.Escalation.{stop_no_error}
use virtle.Executor.Group.{first_exit, add, cut_later, cut, removed, remove, stop_loop, stop_all}

-- Where a process is cut out: after it the group does not hold it again.
pub data IsCut (p : ℕ) : List ℕ → List ℕ → Type 0 where
  cut_here : {xs : List ℕ} → ¬ In p xs → IsCut p (p ∷ xs) xs
  cut_below : {x : ℕ} {xs ys : List ℕ} → IsCut p xs ys → IsCut p (x ∷ xs) (x ∷ ys)

abbrev CutSays : List ℕ → ℕ → Option (List ℕ) → Type 0
CutSays g p none = ¬ In p g
CutSays g p (some g') = IsCut p g g'

not-In : (p x : ℕ) (xs : List ℕ) → x == p ≡ false → ¬ In p xs → ¬ In p (x ∷ xs)
not-In p x xs e n (inl q) = ground arith
not-In p x xs e n (inr m) = n m

same : (p x : ℕ) → x == p ≡ true → x ≡ p
same p x e = ground arith

cut_later_lem :
    (p x : ℕ) (xs : List ℕ) (o : Option (List ℕ))
    → CutSays xs p o
    → CutSays (x ∷ xs) p (cut_later o p x xs)
unfolding cut_later
cut_later_lem p x xs (some ys) c = cut_below c
cut_later_lem p x xs none c = elim (Bool-cases (x == p)) [
  | inl e ↦ rw e (subst (λ q. IsCut p (q ∷ xs) xs) (sym (same p x e)) (cut_here c))
  | inr e ↦ rw e (not-In p x xs e c)
]

cut_lem : (g : List ℕ) (p : ℕ) → CutSays g p (cut g p)
unfolding cut
cut_lem [] p = λ m. elim m [ ]
cut_lem (x ∷ xs) p = cut_later_lem p x xs (cut xs p) (cut_lem xs p)

removed_lem :
    (g : List ℕ) (p : ℕ) (o : Option (List ℕ))
    → CutSays g p o
    → (((removed g o).0 ≡ true) × IsCut p g (removed g o).1)
      ⊎ (((removed g o).0 ≡ false) × ((removed g o).1 ≡ g) × ¬ In p g)
unfolding removed
removed_lem g p (some g') c = inl (refl, c)
removed_lem g p none c = inr (refl, refl, c)

-- Remove either answers true and cuts out the last place of the process, or answers false and
-- leaves the group alone, which does not hold the process.
remove_lem :
    (g : List ℕ) (p : ℕ)
    → (((remove g (some p)).0 ≡ true) × IsCut p g (remove g (some p)).1)
      ⊎ (((remove g (some p)).0 ≡ false) × ((remove g (some p)).1 ≡ g) × ¬ In p g)
unfolding remove
remove_lem g p = removed_lem g p (cut g p) (cut_lem g p)

cut_own : (p : ℕ) → cut (p ∷ []) p ≡ some []
unfolding cut cut_later
cut_own p = ground arith

cut-append : (g : List ℕ) (p : ℕ) → cut (g ++ p ∷ []) p ≡ some g
unfolding cut cut_later
cut-append [] p = cut_own p
cut-append (x ∷ xs) p = ground (arith, cut-append xs p)

-- Removing the process that was just added gives the group back.
pub remove-add : (g : List ℕ) (p : ℕ) → remove (add g (some p ∷ [])) (some p) ≡ (true, g)
unfolding remove removed add
remove-add g p = ground (arith, cut-append g p)

non_nil-append :
    (xs : List (Option Error)) (o : Option Error)
    → errors_join (xs ++ o ∷ []) ≡ none
    → (errors_join xs ≡ none) × (o ≡ none)
unfolding errors_join non_nil
non_nil-append [] none h = (refl, refl)
non_nil-append [] (some e) h = ground arith
non_nil-append (none ∷ xs) o h = non_nil-append xs o h
non_nil-append (some e ∷ xs) o h = ground arith

-- If StopAll reports no error, then it saw every member exit.
stop_all_ok :
    (store : ℕ → Process) (g : List ℕ)
    → (stop_all store g).0 ≡ none
    → All (λ p. (stop_process (store p)).saw_exit ≡ true) g
unfolding stop_all stop_loop
stop_all_ok store [] h = tt
stop_all_ok store (p ∷ g) h =
    let both = non_nil-append (stop_loop store g).0 (stop_process (store p)).error h in
    (stop_no_error (store p) both.1, stop_all_ok store g both.0)

-- A list turned round, in front of another.
abbrev pub reverse_onto : List ℕ → List ℕ → List ℕ
reverse_onto [] done = done
reverse_onto (x ∷ xs) done = reverse_onto xs (x ∷ done)

reverse_onto-append : (xs ys : List ℕ) → reverse_onto xs ys ≡ reverse_onto xs [] ++ ys
reverse_onto-append [] ys = refl
reverse_onto-append (x ∷ xs) ys =
    reverse_onto-append xs (x ∷ ys)
    ∙ sym (
        ap (λ zs. zs ++ ys) (reverse_onto-append xs (x ∷ []))
        ∙ append_assoc (reverse_onto xs []) (x ∷ []) ys)

-- StopAll stops each member, whatever the others answered, from the last added to the first.
pub stop_all_order : (store : ℕ → Process) (g : List ℕ) → (stop_all store g).1 ≡ reverse_onto g []
unfolding stop_all stop_loop
stop_all_order store [] = refl
stop_all_order store (p ∷ g) =
    ground (arith, stop_all_order store g, reverse_onto-append g (p ∷ []))

-- A process that FirstExit reports is a member that has exited, with the error of its exit, and the
-- members before it have not exited.
first_exit_lem :
    (store : ℕ → Process) (g : List ℕ) (p : ℕ) (e : Option Error)
    → first_exit store g ≡ some (p, e)
    → (before : List ℕ) × (rest : List ℕ) × (g ≡ before ++ p ∷ rest)
      × All (λ q. (store q).exited ≡ false) before
      × ((store p).exited ≡ true)
      × (e ≡ (store p).wait_error)
unfolding first_exit
first_exit_lem store [] p e h = absurd (ground arith)
first_exit_lem store (q ∷ g) p e h = elim (Bool-cases (store q).exited) [
  | inl x ↦
      let same_process : q ≡ p = ground arith in
      let same_error : e ≡ (store q).wait_error = ground arith in
      (
        [],
        g,
        ap (λ y. y ∷ g) same_process,
        tt,
        subst (λ y. (store y).exited ≡ true) same_process x,
        subst (λ y. e ≡ (store y).wait_error) same_process same_error,
      )
  | inr x ↦
      let later : first_exit store g ≡ some (p, e) = ground arith in
      let r = first_exit_lem store g p e later in
      (q ∷ r.0, r.1, ap (λ ys. q ∷ ys) r.2, (x, r.3), r.4, r.5)
]
