-- ===== src/Session/Ssh/Order.antt =====
-- The order of what a foreground ssh session does (`RunSSHSession`, `runSSH` and `waitForSSHProcess`).
use virtle.Prelude.{
  sym, String, Bool, true, false, not, ◌&&◌, ◌≡◌, refl, ap, ◌∙◌, List, [], ◌∷◌, ◌++◌, Option, none,
  some, if◌then◌else◌,
}
use virtle.Prelude.Errors.{Error, Result, ok, err}
use virtle.SshTools.{Failure, failure_none, failure_transient, failure_authentication}
use virtle.Session.{
  Event, process_exited, token_read, machine_exited, request, timer, signal, ended, sigtstp,
  sigusr1, Action, start_ssh, ssh_exited, stop_ssh, ensure_key, install_key, commit,
  suspend_machine, Hooks, Machine, Ended, requests, handle_suspend, bridge_commit, Status, call,
  after, suspend, suspend_alone,
}
use virtle.Session.Waits.{wait_for_ssh_process, wait_for_ssh_retry}
use virtle.Session.Ssh.{
  failed, is_authentication, run_ssh_session, with_identity, after_wait, established, built,
  on_failure, ssh_status, give_up, started, ssh_loop, waited, run_ssh, after_retry, retried,
  provision, after_install, Loop, SshConfig, Attempt, after_all,
}

and_then {ℓ κ} : {A : Type ℓ} {B : Type κ} → Option A → (A → Option B) → Option B
and_then none f = none
and_then (some a) f = f a

-- Whether an ssh command runs after an action, given whether one ran before; `none` where the order is
-- wrong. A command is started only when none runs, the resumed state is given up only while one runs,
-- and the machine and its keys are touched only when none runs.
unfoldable pub ssh_step : Bool → Action → Option Bool
ssh_step alive (start_ssh argv) = if alive then none else some true
ssh_step alive ssh_exited = if alive then some false else none
ssh_step alive stop_ssh = if alive then some false else none
ssh_step alive commit = if alive then some true else none
ssh_step alive _ = if alive then none else some false

unfoldable pub ssh_trace : Bool → List Action → Option Bool
unfolding and_then
ssh_trace alive [] = some alive
ssh_trace alive (a ∷ did) = and_then (ssh_step alive a) (λ b. ssh_trace b did)

-- An end at which no ssh command is left, its actions in order.
abbrev pub Ordered : Bool → Option Ended → Type 0
Ordered alive none = Unit
Ordered alive (some r) = ssh_trace alive r.actions ≡ some false

and_then_assoc :
    (o : Option Bool) (f g : Bool → Option Bool)
    → and_then (and_then o f) g ≡ and_then o (λ b. and_then (f b) g)
unfolding and_then
and_then_assoc none f g = refl
and_then_assoc (some b) f g = refl

and_then-cong :
    (o : Option Bool) (f g : Bool → Option Bool)
    → ((b : Bool) → f b ≡ g b)
    → and_then o f ≡ and_then o g
unfolding and_then
and_then-cong none f g h = refl
and_then-cong (some b) f g h = h b

trace-append :
    (alive : Bool) (xs ys : List Action)
    → ssh_trace alive (xs ++ ys) ≡ and_then (ssh_trace alive xs) (λ b. ssh_trace b ys)
unfolding ssh_trace and_then
trace-append alive [] ys = refl
trace-append alive (a ∷ xs) ys =
    and_then-cong (ssh_step alive a) (λ b. ssh_trace b (xs ++ ys))
      (λ b. and_then (ssh_trace b xs) (λ c. ssh_trace c ys)) (λ b. trace-append b xs ys)
    ∙ sym (and_then_assoc (ssh_step alive a) (λ b. ssh_trace b xs) (λ c. ssh_trace c ys))

pub after_lem :
    (alive middle : Bool) (did : List Action) (r : Ended)
    → ssh_trace alive did ≡ some middle
    → Ordered middle (some r)
    → Ordered alive (some (after did r))
unfolding after and_then
after_lem alive middle did r s t =
    trace-append alive did r.actions ∙ (ap (λ o. and_then o (λ b. ssh_trace b r.actions)) s ∙ t)

pub after_all_lem :
    (alive middle : Bool) (did : List Action) (o : Option Ended)
    → ssh_trace alive did ≡ some middle
    → Ordered middle o
    → Ordered alive (after_all did o)
after_all_lem alive middle did none s t = tt
after_all_lem alive middle did (some r) s t = after_lem alive middle did r s t

if-Ordered :
    (b alive : Bool) (r s : Option Ended)
    → Ordered alive r
    → Ordered alive s
    → Ordered alive (if b then r else s)
if-Ordered true alive r s p q = p
if-Ordered false alive r s p q = q

pub if_lem : {A : Type 0} (P : A → Type 0) (b : Bool) (r s : A) → P r → P s → P (if b then r else s)
if_lem P true r s p q = p
if_lem P false r s p q = q

suspender_lem : (o : Option (Option Error)) → Ordered false (some (suspend_alone o))
unfolding suspend_alone ssh_trace ssh_step and_then
suspender_lem none = refl
suspender_lem (some e) = refl

module _ (m : Machine) (h : Hooks) where
  pub handled : Ordered false (some (handle_suspend h))
  unfolding handle_suspend ssh_trace ssh_step and_then
  handled = refl

  pub suspended : Ordered false (some (suspend m h))
  unfolding suspend ssh_trace ssh_step and_then
  suspended =
      if_lem (λ r. Ordered false (some r)) (requests h)
        (record { error = call h.suspend; actions = suspend_machine (call h.suspend) ∷ [] })
        (suspend_alone m.suspender) refl (suspender_lem m.suspender)

  stop_first : (r : Ended) → Ordered false (some r) → Ordered true (some (after (stop_ssh ∷ []) r))
  unfolding ssh_trace ssh_step and_then
  stop_first r p = after_lem true false (stop_ssh ∷ []) r refl p

  process_lem : (es : List Event) → Ordered true (wait_for_ssh_process m h es)
  unfolding wait_for_ssh_process ssh_trace ssh_step and_then after
  process_lem [] = tt
  process_lem (process_exited e ∷ es) = refl
  process_lem (machine_exited ∷ es) = refl
  process_lem (request ∷ es) =
      if_lem (Ordered true) (requests h) (some (after (stop_ssh ∷ []) (handle_suspend h)))
        (wait_for_ssh_process m h es) (stop_first (handle_suspend h) handled) (process_lem es)
  process_lem (signal sigusr1 ∷ es) = process_lem es
  process_lem (signal sigtstp ∷ es) = stop_first (suspend m h) suspended
  process_lem (ended cause ∷ es) = refl
  process_lem (token_read _ ∷ es) = process_lem es
  process_lem (timer ∷ es) = process_lem es

  retry_lem : (es : List Event) → Ordered false (wait_for_ssh_retry m h es)
  unfolding wait_for_ssh_retry ssh_trace ssh_step and_then
  retry_lem [] = tt
  retry_lem (timer ∷ es) = refl
  retry_lem (machine_exited ∷ es) = refl
  retry_lem (request ∷ es) =
      if_lem (Ordered false) (requests h) (some (handle_suspend h)) (wait_for_ssh_retry m h es)
        handled (retry_lem es)
  retry_lem (signal sigusr1 ∷ es) = retry_lem es
  retry_lem (signal sigtstp ∷ es) = suspended
  retry_lem (ended cause ∷ es) = refl
  retry_lem (process_exited _ ∷ es) = retry_lem es
  retry_lem (token_read _ ∷ es) = retry_lem es

module _ (go_on : Loop → Option Ended) (later : (l : Loop) → Ordered false (go_on l)) where
  retried_lem :
      (l : Loop) (r : Ended) (e : Option Error)
      → Ordered false (some r)
      → Ordered false (retried r e (go_on l))
  unfolding retried
  retried_lem l r none p = after_all_lem false false r.actions (go_on l) p (later l)
  retried_lem l r (some e) p = p

  after_retry_lem :
      (l : Loop) (o : Option Ended) → Ordered false o → Ordered false (after_retry o (go_on l))
  unfolding after_retry
  after_retry_lem l none p = tt
  after_retry_lem l (some r) p = retried_lem l r r.error p

  install_lem : (l : Loop) (e : Option Error) → Ordered false (after_install e (go_on l))
  unfolding after_install ssh_trace ssh_step and_then
  install_lem l none =
      after_all_lem false false (ensure_key ∷ install_key ∷ []) (go_on l) refl (later l)
  install_lem l (some e) = refl

  provision_lem :
      (config : SshConfig) (a : Attempt) (key : Result String)
      → Ordered false (provision config a key go_on)
  unfolding provision ssh_trace ssh_step and_then
  provision_lem config a (err e) = refl
  provision_lem config a (ok identity_file) =
      install_lem (record { argv = with_identity config.argv identity_file; provisioned = true })
        a.install_error

  give_up_lem :
      (config : SshConfig) (l : Loop) (a : Attempt) (f : Failure) (e : Error)
      → Ordered false (give_up config l a f e go_on)
  unfolding give_up ssh_trace
  give_up_lem config l a f e =
      if_lem (Ordered false) (config.autoprovision && not l.provisioned && is_authentication f)
        (provision config a a.key go_on) (failed e []) (provision_lem config a a.key) refl

  module _ (m : Machine) (h : Hooks) where
    failure_lem :
        (config : SshConfig) (l : Loop) (a : Attempt) (f : Failure) (e : Error)
        → Ordered false (on_failure m h config l a f e go_on)
    unfolding on_failure
    failure_lem config l a failure_transient e =
        after_retry_lem l (wait_for_ssh_retry m h a.retry_events) (retry_lem m h a.retry_events)
    failure_lem config l a failure_none e = give_up_lem config l a failure_none e
    failure_lem config l a failure_authentication e =
        give_up_lem config l a failure_authentication e

    module _ (classify : Option Error → String → Failure) (config : SshConfig) where
      after_wait_lem :
          (l : Loop) (a : Attempt) (r : Ended) (e : Option Error)
          → Ordered true (some r)
          → Ordered true (after_wait m h classify config l a r e go_on)
      unfolding after_wait
      after_wait_lem l a r none p = p
      after_wait_lem l a r (some e) p =
          after_all_lem true false r.actions
            (on_failure m h config l a (classify (some e) a.stderr) e go_on) p
            (failure_lem config l a (classify (some e) a.stderr) e)

      waited_lem :
          (l : Loop) (a : Attempt) (o : Option Ended)
          → Ordered true o
          → Ordered true (waited m h classify config l a o go_on)
      unfolding waited
      waited_lem l a none p = tt
      waited_lem l a (some r) p = after_wait_lem l a r r.error p

      established_lem :
          (l : Loop) (a : Attempt) (e : Option Error)
          → Ordered true (established m h classify config l a (bridge_commit h) e go_on)
      unfolding established bridge_commit ssh_trace ssh_step and_then
      established_lem l a none =
          after_all_lem true true (commit ∷ [])
            (waited m h classify config l a (wait_for_ssh_process m h a.events) go_on) refl
            (waited_lem l a (wait_for_ssh_process m h a.events) (process_lem m h a.events))
      established_lem l a (some e) = refl

      started_lem :
          (l : Loop) (a : Attempt) (e : Option Error)
          → Ordered false (started m h classify config l a e go_on)
      unfolding started ssh_trace ssh_step and_then
      started_lem l a (some e) = refl
      started_lem l a none =
          after_all_lem false true (start_ssh l.argv ∷ [])
            (established m h classify config l a (bridge_commit h) (bridge_commit h).error go_on)
            refl (established_lem l a (bridge_commit h).error)

      built_lem :
          (l : Loop) (a : Attempt) (e : Option Error)
          → Ordered false (built m h classify config l a e go_on)
      unfolding built ssh_trace ssh_step and_then
      built_lem l a (some e) = refl
      built_lem l a none = started_lem l a a.start_error

module _ (m : Machine) (h : Hooks) (classify : Option Error → String → Failure)
    (config : SshConfig) where
  loop_lem :
      (l : Loop) (attempts : List Attempt) → Ordered false (ssh_loop m h classify config l attempts)
  unfolding ssh_loop
  loop_lem l [] = tt
  loop_lem l (a ∷ rest) =
      built_lem (λ l'. ssh_loop m h classify config l' rest) (λ l'. loop_lem l' rest) m h classify
        config l a a.build_error

  status_lem :
      (attempts : List Attempt) (o : Option (Result Status))
      → Ordered false (ssh_status m h classify config attempts o)
  unfolding ssh_status run_ssh_session ssh_trace
  status_lem attempts none = refl
  status_lem attempts (some (err e)) = refl
  status_lem attempts (some (ok s)) =
      loop_lem (record { argv = config.argv; provisioned = false }) attempts

  pub run_ssh_ordered :
      (attempts : List Attempt) → Ordered false (run_ssh m h classify config attempts)
  unfolding run_ssh
  run_ssh_ordered attempts = status_lem attempts m.reporter
