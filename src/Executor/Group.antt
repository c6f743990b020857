-- ===== src/Executor/Group.antt =====
-- internal/executor/group.go: a set of managed processes. A process is its address, and `store` holds
-- what is at an address.
pub mod Members
use virtle.Prelude.{
  ℕ, ◌==◌, Bool, true, false, List, [], ◌∷◌, ◌++◌, Option, none, some, if◌then◌else◌,
}
use virtle.Prelude.Errors.{Error, errors_join}
use virtle.Executor.Process.{Process, Stopped, stop_process}

-- `Add`: the processes that are nil are left out.
unfoldable pub add : List ℕ → List (Option ℕ) → List ℕ
add g [] = g
add g (none ∷ ps) = add g ps
add g (some p ∷ ps) = add (g ++ p ∷ []) ps

cut_later : Option (List ℕ) → ℕ → ℕ → List ℕ → Option (List ℕ)
cut_later (some rest) p x xs = some (x ∷ rest)
cut_later none p x xs = if x == p then some xs else none

-- The loop of `Remove`, which looks at the later processes first.
cut : List ℕ → ℕ → Option (List ℕ)
unfolding cut_later
cut [] p = none
cut (x ∷ xs) p = cut_later (cut xs p) p x xs

removed : List ℕ → Option (List ℕ) → Bool × List ℕ
removed g none = (false, g)
removed g (some g') = (true, g')

-- `Remove`, on a process that may be nil.
unfoldable pub remove : List ℕ → Option ℕ → Bool × List ℕ
unfolding cut removed
remove g none = (false, g)
remove g (some p) = removed g (cut g p)

-- `FirstExit`: the first process that has exited, and the error of its exit.
unfoldable pub first_exit : (ℕ → Process) → List ℕ → Option (ℕ × Option Error)
first_exit store [] = none
first_exit store (p ∷ g) =
    let later = first_exit store g in
    if (store p).exited then some (p, (store p).wait_error) else later

-- `StopAll` from the last process to the first: the errors, and the processes in the order in which
-- they were stopped.
stop_loop : (ℕ → Process) → List ℕ → List (Option Error) × List ℕ
stop_loop store [] = ([], [])
stop_loop store (p ∷ g) =
    let later = stop_loop store g in
    (later.0 ++ (stop_process (store p)).error ∷ [], later.1 ++ p ∷ [])

unfoldable pub stop_all : (ℕ → Process) → List ℕ → Option Error × List ℕ
unfolding stop_loop
stop_all store g = let s = stop_loop store g in (errors_join s.0, s.1)
