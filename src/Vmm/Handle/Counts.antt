-- ===== src/Vmm/Handle/Counts.antt =====
-- How often the actions of a machine's handle happen, and what its shutdown adds to that.
use virtle.Prelude.{
  if◌then◌else◌, subst, false, true, ◌∙◌, ◌⊎◌, ℕ, ◌+◌, ◌≤◌, Bool, ◌≡◌, refl, ap, inl, inr, List, [],
  ◌∷◌, ◌++◌, Option, none, some, arith,
}
use virtle.Prelude.Errors.{Error}
use virtle.Vmm.Handle.{
  write_back_at_exit, mark, exit_actions, shut_down, exit_actions, mark, shut_down, do_all, Vm,
  Action, shutdown_runtime, remove_state, write_back, close_first, close_context,
}

-- How often an action is in a list.
unfoldable pub is_shutdown : Action → ℕ
is_shutdown shutdown_runtime = 1
is_shutdown _ = 0

unfoldable pub is_removal : Action → ℕ
is_removal remove_state = 1
is_removal _ = 0

unfoldable pub is_write_back : Action → ℕ
is_write_back write_back = 1
is_write_back _ = 0

unfoldable pub is_exit_write_back : Action → ℕ
is_exit_write_back write_back_at_exit = 1
is_exit_write_back _ = 0

unfoldable pub count : (Action → ℕ) → List Action → ℕ
count f [] = 0
count f (a ∷ did) = f a + count f did

pub count-append :
    (f : Action → ℕ) (xs ys : List Action) → count f (xs ++ ys) ≡ count f xs + count f ys
unfolding count
count-append f [] ys = omega arith
count-append f (a ∷ xs) ys = omega (arith, count-append f xs ys)

unfoldable pub flag : Bool → ℕ
flag true = 1
flag false = 0

-- 1 if a Once was done.
unfoldable pub once {ℓ} : {A : Type ℓ} → Option A → ℕ
once none = 0
once (some a) = 1

-- The runtime was shut down as often as its Once was done, the state that was resumed from is removed
-- once at most, files are written back once at most for a suspend and once at most in the teardown of
-- the runtime, there only where they are to be written back on exit, and no exit is reported before the
-- shutdown.
unfoldable pub IsOnce : Vm → Type 0
unfolding is_shutdown is_removal is_write_back is_exit_write_back once flag
IsOnce v =
    (count is_shutdown v.did ≡ once v.close_once)
    × (count is_removal v.did ≤ once v.commit_once)
    × (count is_write_back v.did ≤ once v.suspend_once)
    × (count is_exit_write_back v.did ≤ flag v.runtime_closed)
    × ((v.write_back_on_exit ≡ true) ⊎ (count is_exit_write_back v.did ≡ 0))
    × (once v.exit_error ≤ once v.close_once)

pub count_end :
    (f : Action → ℕ) (did : List Action) (a : Action) → count f (did ++ a ∷ []) ≡ count f did + f a
unfolding count
count_end f did a = omega (arith, count-append f did (a ∷ []))

-- No more files are written back on exit.
pub same_lem : {P : Type 0} {m n : ℕ} → P ⊎ (m ≡ 0) → n ≡ m → P ⊎ (n ≡ 0)
same_lem (inl p) e = inl p
same_lem (inr z) e = inr (e ∙ z)

pub once_lem : {A : Type 0} (o : Option A) (p : Option A) → o ≡ p → once o ≡ once p
once_lem o p q = ap once q

-- What the teardown of the runtime adds to each count.
exit_lem :
    (v : Vm) (b c : Bool)
    → v.is_marked ≡ b
    → v.write_back_on_exit ≡ c
    → (count is_shutdown (exit_actions v) ≡ 0)
      × (count is_removal (exit_actions v) ≡ 0)
      × (count is_write_back (exit_actions v) ≡ 0)
      × (count is_exit_write_back (exit_actions v) ≤ 1)
      × ((v.write_back_on_exit ≡ true) ⊎ (count is_exit_write_back (exit_actions v) ≡ 0))
unfolding exit_actions count is_shutdown is_removal is_write_back is_exit_write_back
exit_lem v true c m w = rw m (refl, refl, refl, omega arith, inr refl)
exit_lem v false true m w = rw (m, w) (refl, refl, refl, omega arith, inl refl)
exit_lem v false false m w = rw (m, w) (refl, refl, refl, omega arith, inr refl)

none_lem : {P : Type 0} {m n k : ℕ} → P ⊎ (m ≡ 0) → P ⊎ (n ≡ 0) → k ≡ m + n → P ⊎ (k ≡ 0)
none_lem (inl p) b e = inl p
none_lem (inr z) (inl p) e = inl p
none_lem (inr z) (inr y) e = inr (omega (arith, z, y, e))

shut_first :
    (v : Vm)
    → v.runtime_closed ≡ false
    → IsOnce v
    → IsOnce (record v { runtime_closed = true; did = v.did ++ exit_actions v })
unfolding IsOnce flag
shut_first v c h =
    let x = exit_lem v v.is_marked v.write_back_on_exit refl refl in
    let n : count is_exit_write_back v.did ≤ 0 =
      subst (λ b. count is_exit_write_back v.did ≤ flag b) c h.3 in
    let k = count-append is_exit_write_back v.did (exit_actions v) in
    (
      omega (arith, h.0, x.0, count-append is_shutdown v.did (exit_actions v)),
      omega (arith, h.1, x.1, count-append is_removal v.did (exit_actions v)),
      omega (arith, h.2, x.2, count-append is_write_back v.did (exit_actions v)),
      omega (arith, n, x.3, k),
      none_lem h.4 x.4 k,
      h.5,
    )

shut_with :
    (v : Vm) (b : Bool)
    → v.runtime_closed ≡ b
    → IsOnce v
    → IsOnce (if b then v else record v { runtime_closed = true; did = v.did ++ exit_actions v })
shut_with v true c h = h
shut_with v false c h = shut_first v c h

pub shut_lem : (v : Vm) → IsOnce v → IsOnce (shut_down v)
unfolding shut_down
shut_lem v h = shut_with v v.runtime_closed refl h

close_first_lem :
    (v : Vm) (e : Option Error) (o : Option (Option Error))
    → v.close_once ≡ o
    → IsOnce v
    → IsOnce (close_first v e o).1
unfolding close_first IsOnce once is_shutdown is_removal is_write_back is_exit_write_back
close_first_lem v e none q h =
    let z : once v.close_once ≡ 0 = once_lem v.close_once none q in
    let x = count_end is_exit_write_back v.did shutdown_runtime in
    shut_lem (record v { close_once = some e; did = v.did ++ shutdown_runtime ∷ [] })
      (
        omega (arith, z, h.0, count_end is_shutdown v.did shutdown_runtime),
        omega (arith, h.1, count_end is_removal v.did shutdown_runtime),
        omega (arith, h.2, count_end is_write_back v.did shutdown_runtime),
        omega (arith, h.3, x),
        same_lem h.4 (omega (arith, x)),
        omega (arith, z, h.5),
      )
close_first_lem v e (some x) q h = h

pub close_lem : (v : Vm) (e : Option Error) → IsOnce v → IsOnce (close_context v e).1
unfolding close_context
close_lem v e h = close_first_lem v e v.close_once refl h

-- Actions that happen as often as they like.
pub add_lem :
    (v : Vm) (more : List Action)
    → count is_shutdown more ≡ 0
    → count is_removal more ≡ 0
    → count is_write_back more ≡ 0
    → count is_exit_write_back more ≡ 0
    → IsOnce v
    → IsOnce (do_all v more)
unfolding IsOnce
add_lem v more a b c d h = (
  omega (arith, h.0, a, count-append is_shutdown v.did more),
  omega (arith, h.1, b, count-append is_removal v.did more),
  omega (arith, h.2, c, count-append is_write_back v.did more),
  omega (arith, h.3, d, count-append is_exit_write_back v.did more),
  same_lem h.4 (omega (arith, d, count-append is_exit_write_back v.did more)),
  h.5,
)

-- The mark of a saved suspend, which no count is about.
pub mark_lem : (v : Vm) (more : List Action) → IsOnce (do_all v more) → IsOnce (mark v more)
unfolding IsOnce
mark_lem v more h = h
