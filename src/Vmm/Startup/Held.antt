-- ===== src/Vmm/Startup/Held.antt =====
-- What a launch holds, and what the deferred function of `startWithPlan` gives back.
use virtle.Prelude.{
  Bool, true, false, ◌≡◌, refl, ap, ◌∙◌, List, [], ◌∷◌, ◌++◌, Option, none, some, if◌then◌else◌,
}
use virtle.Prelude.Errors.{non_nil, errors_join, Error}
use virtle.Vmm.Startup.{
  cleanup_actions, deferred, cleanup_errors, Action, cancel_launch, acquire_lock, release_lock,
  start_run, stop_runs, start_qemu, close_processes, connect_qmp, disconnect_qmp, reach_sockets,
  remove_sockets, create_runtime, start_control, mark_saved_suspend, shutdown_runtime,
  start_balloon, Calls, Progress, Outcome, fail, fail_unstarted, check,
}

-- What is held: the lock, processes, the monitor, socket files, a runtime that owns all of these and
-- its control server; and whether a runtime was ever created and a control server ever started.
pub record Held : Type 0 where
  pub lock : Bool
  pub processes : Bool
  pub qmp : Bool
  pub sockets : Bool
  pub runtime : Bool
  pub control : Bool
  pub was_created : Bool
  pub was_served : Bool

abbrev pub nothing : Held
nothing = record {
  lock = false;
  processes = false;
  qmp = false;
  sockets = false;
  runtime = false;
  control = false;
  was_created = false;
  was_served = false;
}

-- The shutdown of a runtime gives back all that it owns.
unfoldable pub take : Held → Action → Held
take h cancel_launch = h
take h acquire_lock = record h { lock = true }
take h release_lock = record h { lock = false }
take h start_run = record h { processes = true }
take h stop_runs = record h { processes = false }
take h start_qemu = record h { processes = true }
take h close_processes = record h { processes = false }
take h connect_qmp = record h { qmp = true }
take h disconnect_qmp = record h { qmp = false }
take h reach_sockets = record h { sockets = true }
take h remove_sockets = record h { sockets = false }
take h create_runtime = record h { runtime = true; was_created = true }
take h start_control = record h { control = true; was_served = true }
take h mark_saved_suspend = h
take h shutdown_runtime = record h {
  lock = false;
  processes = false;
  qmp = false;
  sockets = false;
  runtime = false;
  control = false;
}
take h start_balloon = h

unfoldable pub held_after : Held → List Action → Held
unfolding take
held_after h [] = h
held_after h (a ∷ did) = held_after (take h a) did

after_append :
    (h : Held) (xs ys : List Action) → held_after h (xs ++ ys) ≡ held_after (held_after h xs) ys
unfolding held_after
after_append h [] ys = refl
after_append h (a ∷ xs) ys = after_append (take h a) xs ys

abbrev pub holding : Bool → Bool → Bool → Bool → Bool → Held
holding processes qmp sockets runtime control = record {
  lock = true;
  processes = processes;
  qmp = qmp;
  sockets = sockets;
  runtime = runtime;
  control = control;
  was_created = runtime;
  was_served = control;
}

-- Only the runtime and the control server are left, if there ever were any.
abbrev left : Bool → Bool → Held
left runtime control = record nothing {
  runtime = runtime;
  control = control;
  was_created = runtime;
  was_served = control;
}

-- At an error nothing is held but a runtime and a control server if one was ever made, and all is held
-- where there is no error.
abbrev pub Holds : Option Error → List Action → Type 0
Holds (some e) did = (runtime control : Bool) × (held_after nothing did ≡ left runtime control)
Holds none did = held_after nothing did ≡ holding true true true true true

-- The variables of the deferred function agree with what is held.
abbrev pub Agrees : Progress → Type 0
Agrees p =
    (processes runtime control : Bool) × (held_after nothing p.did
      ≡ holding processes p.has_qmp p.sockets_reached runtime control)

cleanup_lem : (b q s r c : Bool) → held_after (holding b q s r c) (cleanup_actions q s) ≡ left r c
unfolding held_after take
cleanup_lem b true true r c = refl
cleanup_lem b true false r c = refl
cleanup_lem b false true r c = refl
cleanup_lem b false false r c = refl

-- An outcome that holds what it should.
abbrev pub Proper : Outcome → Type 0
Proper o = Holds o.error o.did

some_lem :
    (e : Error) (o : Option Error) (did : List Action) (r c : Bool)
    → held_after nothing did ≡ left r c
    → Holds (errors_join (some e ∷ o ∷ [])) did
unfolding errors_join non_nil
some_lem e none did r c h = (r, c, h)
some_lem e (some f) did r c h = (r, c, h)

-- One call of the launch: on its error the deferred function cleans up.
pub check_lem :
    (w : Calls) (p : Progress) (e : Option Error) (next : Outcome)
    → Agrees p
    → Proper next
    → Proper (check w p e next)
unfolding check fail deferred fail_unstarted
check_lem w p none next a n = n
check_lem w p (some e) next (b, r, c, a) n =
    let more : List Action = cleanup_actions p.has_qmp p.sockets_reached in
    some_lem e (cleanup_errors w (record p { started = false })) (p.did ++ more) r c (
      after_append nothing p.did more
      ∙ ap (λ x. held_after x more) a
      ∙ cleanup_lem b p.has_qmp p.sockets_reached r c)

-- The step from one point of the launch to the next.
pub agrees_lem :
    (did more : List Action) (h k : Held)
    → held_after nothing did ≡ h
    → held_after h more ≡ k
    → held_after nothing (did ++ more) ≡ k
agrees_lem did more h k a b = after_append nothing did more ∙ ap (λ x. held_after x more) a ∙ b

pub balloon_lem : (b : Bool) (h : Held) → held_after h (if b then start_balloon ∷ [] else []) ≡ h
unfolding held_after take
balloon_lem true h = refl
balloon_lem false h = refl
