-- ===== src/Session/Ssh/Provision.antt =====
-- How often `RunSSHSession` installs a key.
use virtle.Prelude.{
  inr, String, inl, ℕ, ◌+◌, ◌≤◌, Bool, true, false, not, ◌&&◌, ◌≡◌, refl, subst, List, [], ◌∷◌,
  ◌++◌, Option, none, some, if◌then◌else◌, arith, Bool-cases,
}
use virtle.Prelude.Errors.{Error, Result, ok, err}
use virtle.SshTools.{Failure, failure_none, failure_transient, failure_authentication}
use virtle.Session.Ssh.{
  is_authentication, with_identity, SshConfig, Loop, Attempt, after_all, failed, retried,
  after_retry, after_install, provision, give_up, on_failure, after_wait, waited, established,
  started, built, ssh_loop, run_ssh_session,
}
use virtle.Session.Ssh.Order.{if_lem}
use virtle.Session.Waits.{wait_for_ssh_process, wait_for_ssh_retry}
use virtle.Session.{
  process_exited, token_read, machine_exited, request, timer, signal, ended, sigtstp, sigusr1,
  commit, start_ssh, bridge_commit, token_read, ended, suspend_machine, ensure_key, signal, call,
  stop_ssh, process_exited, requests, suspend_alone, Event, Action, install_key, Hooks, Machine,
  Ended, after, handle_suspend, suspend,
}

is_install : Action → ℕ
is_install install_key = 1
is_install _ = 0

unfoldable pub installs : List Action → ℕ
unfolding is_install
installs [] = 0
installs (a ∷ did) = is_install a + installs did

-- An end with at most so many installs.
abbrev AtMost : ℕ → Option Ended → Type 0
AtMost n none = Unit
AtMost n (some r) = installs r.actions ≤ n

installs-append : (xs ys : List Action) → installs (xs ++ ys) ≡ installs xs + installs ys
unfolding installs
installs-append [] ys = omega arith
installs-append (a ∷ did) ys = omega (arith, installs-append did ys)

after_all_lem :
    (k n total : ℕ) (did : List Action) (o : Option Ended)
    → installs did ≤ k
    → k + n ≤ total
    → AtMost n o
    → AtMost total (after_all did o)
unfolding after
after_all_lem k n total did none p t q = tt
after_all_lem k n total did (some r) p t q = omega (arith, installs-append did r.actions)

suspender_lem : (o : Option (Option Error)) → AtMost 0 (some (suspend_alone o))
unfolding suspend_alone installs is_install
suspender_lem none = omega arith
suspender_lem (some e) = omega arith

module _ (m : Machine) (h : Hooks) where
  handled : AtMost 0 (some (handle_suspend h))
  unfolding handle_suspend installs is_install
  handled = omega arith

  suspended : AtMost 0 (some (suspend m h))
  unfolding suspend installs is_install
  suspended =
      if_lem (λ r. AtMost 0 (some r)) (requests h)
        (record { error = call h.suspend; actions = suspend_machine (call h.suspend) ∷ [] })
        (suspend_alone m.suspender) (omega arith) (suspender_lem m.suspender)

  process_lem : (es : List Event) → AtMost 0 (wait_for_ssh_process m h es)
  unfolding wait_for_ssh_process installs is_install after
  process_lem [] = tt
  process_lem (process_exited e ∷ es) = omega arith
  process_lem (machine_exited ∷ es) = omega arith
  process_lem (request ∷ es) =
      if_lem (AtMost 0) (requests h) (some (after (stop_ssh ∷ []) (handle_suspend h)))
        (wait_for_ssh_process m h es) (omega (arith, handled)) (process_lem es)
  process_lem (signal sigusr1 ∷ es) = process_lem es
  process_lem (signal sigtstp ∷ es) = omega (arith, suspended)
  process_lem (ended cause ∷ es) = omega arith
  process_lem (token_read _ ∷ es) = process_lem es
  process_lem (timer ∷ es) = process_lem es

  retry_lem : (es : List Event) → AtMost 0 (wait_for_ssh_retry m h es)
  unfolding wait_for_ssh_retry installs is_install
  retry_lem [] = tt
  retry_lem (timer ∷ es) = omega arith
  retry_lem (machine_exited ∷ es) = omega arith
  retry_lem (request ∷ es) =
      if_lem (AtMost 0) (requests h) (some (handle_suspend h)) (wait_for_ssh_retry m h es) handled
        (retry_lem es)
  retry_lem (signal sigusr1 ∷ es) = retry_lem es
  retry_lem (signal sigtstp ∷ es) = suspended
  retry_lem (ended cause ∷ es) = omega arith
  retry_lem (process_exited _ ∷ es) = retry_lem es
  retry_lem (token_read _ ∷ es) = retry_lem es

-- The installs that are left to a loop.
left : SshConfig → Loop → ℕ
left config l = if config.autoprovision && not l.provisioned then 1 else 0

guarded :
    (a p q : Bool) (x : Option Ended) (e : Error)
    → AtMost 1 x
    → AtMost (if a && not p then 1 else 0) (if a && not p && q then x else failed e [])
unfolding installs
guarded true true q x e h = omega arith
guarded true false true x e h = h
guarded true false false x e h = omega arith
guarded false p q x e h = omega arith

left_none :
    (config : SshConfig) (argv : List String)
    → left config (record { argv = argv; provisioned = true }) ≡ 0
unfolding left
left_none config argv = elim (Bool-cases config.autoprovision) [
  | inl e ↦ rw e refl
  | inr e ↦ rw e refl
]

module _ (config : SshConfig) (go_on : Loop → Option Ended)
    (later : (l : Loop) → AtMost (left config l) (go_on l)) where
  retried_lem :
      (l : Loop) (r : Ended) (e : Option Error)
      → AtMost 0 (some r)
      → AtMost (left config l) (retried r e (go_on l))
  unfolding retried
  retried_lem l r none p =
      after_all_lem 0 (left config l) (left config l) r.actions (go_on l) p (omega arith) (later l)
  retried_lem l r (some e) p = omega arith

  after_retry_lem :
      (l : Loop) (o : Option Ended) → AtMost 0 o → AtMost (left config l) (after_retry o (go_on l))
  unfolding after_retry
  after_retry_lem l none p = tt
  after_retry_lem l (some r) p = retried_lem l r r.error p

  install_lem :
      (argv : List String) (e : Option Error)
      → AtMost 1 (after_install e (go_on (record { argv = argv; provisioned = true })))
  unfolding after_install installs is_install
  install_lem argv none =
      after_all_lem 1 0 1 (ensure_key ∷ install_key ∷ [])
        (go_on (record { argv = argv; provisioned = true })) (omega arith) (omega arith)
        (subst (λ n. AtMost n (go_on (record { argv = argv; provisioned = true })))
          (left_none config argv) (later (record { argv = argv; provisioned = true })))
  install_lem argv (some e) = omega arith

  provision_lem : (a : Attempt) (key : Result String) → AtMost 1 (provision config a key go_on)
  unfolding provision installs is_install
  provision_lem a (err e) = omega arith
  provision_lem a (ok identity_file) =
      install_lem (with_identity config.argv identity_file) a.install_error

  give_up_lem :
      (l : Loop) (a : Attempt) (f : Failure) (e : Error)
      → AtMost (left config l) (give_up config l a f e go_on)
  unfolding give_up left
  give_up_lem l a f e =
      guarded config.autoprovision l.provisioned (is_authentication f)
        (provision config a a.key go_on) e (provision_lem a a.key)

  module _ (m : Machine) (h : Hooks) where
    failure_lem :
        (l : Loop) (a : Attempt) (f : Failure) (e : Error)
        → AtMost (left config l) (on_failure m h config l a f e go_on)
    unfolding on_failure
    failure_lem l a failure_transient e =
        after_retry_lem l (wait_for_ssh_retry m h a.retry_events) (retry_lem m h a.retry_events)
    failure_lem l a failure_none e = give_up_lem l a failure_none e
    failure_lem l a failure_authentication e = give_up_lem l a failure_authentication e

    module _ (classify : Option Error → String → Failure) where
      after_wait_lem :
          (l : Loop) (a : Attempt) (r : Ended) (e : Option Error)
          → AtMost 0 (some r)
          → AtMost (left config l) (after_wait m h classify config l a r e go_on)
      unfolding after_wait
      after_wait_lem l a r none p = omega arith
      after_wait_lem l a r (some e) p =
          after_all_lem 0 (left config l) (left config l) r.actions
            (on_failure m h config l a (classify (some e) a.stderr) e go_on) p (omega arith)
            (failure_lem l a (classify (some e) a.stderr) e)

      waited_lem :
          (l : Loop) (a : Attempt) (o : Option Ended)
          → AtMost 0 o
          → AtMost (left config l) (waited m h classify config l a o go_on)
      unfolding waited
      waited_lem l a none p = tt
      waited_lem l a (some r) p = after_wait_lem l a r r.error p

      established_lem :
          (l : Loop) (a : Attempt) (e : Option Error)
          → AtMost (left config l) (established m h classify config l a (bridge_commit h) e go_on)
      unfolding established bridge_commit installs is_install
      established_lem l a none =
          after_all_lem 0 (left config l) (left config l) (commit ∷ [])
            (waited m h classify config l a (wait_for_ssh_process m h a.events) go_on) (omega arith)
            (omega arith)
            (waited_lem l a (wait_for_ssh_process m h a.events) (process_lem m h a.events))
      established_lem l a (some e) = omega arith

      started_lem :
          (l : Loop) (a : Attempt) (e : Option Error)
          → AtMost (left config l) (started m h classify config l a e go_on)
      unfolding started installs is_install
      started_lem l a (some e) = omega arith
      started_lem l a none =
          after_all_lem 0 (left config l) (left config l) (start_ssh l.argv ∷ [])
            (established m h classify config l a (bridge_commit h) (bridge_commit h).error go_on)
            (omega arith) (omega arith) (established_lem l a (bridge_commit h).error)

      built_lem :
          (l : Loop) (a : Attempt) (e : Option Error)
          → AtMost (left config l) (built m h classify config l a e go_on)
      unfolding built installs
      built_lem l a (some e) = omega arith
      built_lem l a none = started_lem l a a.start_error

module _ (m : Machine) (h : Hooks) (classify : Option Error → String → Failure)
    (config : SshConfig) where
  loop_lem :
      (l : Loop) (attempts : List Attempt)
      → AtMost (left config l) (ssh_loop m h classify config l attempts)
  unfolding ssh_loop
  loop_lem l [] = tt
  loop_lem l (a ∷ rest) =
      built_lem config (λ l'. ssh_loop m h classify config l' rest) (λ l'. loop_lem l' rest) m h
        classify l a a.build_error

-- However many attempts an ssh session makes, it installs a key at most once, and none where the
-- manifest does not ask for it.
pub run_ssh_session_provisions :
    (m : Machine) (h : Hooks) (classify : Option Error → String → Failure) (config : SshConfig)
    (attempts : List Attempt) (r : Ended)
    → run_ssh_session m h classify config attempts ≡ some r
    → installs r.actions ≤ (if config.autoprovision then 1 else 0)
unfolding run_ssh_session left
run_ssh_session_provisions m h classify config attempts r e =
    let p : installs r.actions ≤ left config (record { argv = config.argv; provisioned = false }) =
      subst (AtMost (left config (record { argv = config.argv; provisioned = false }))) e (
        loop_lem m h classify config (record { argv = config.argv; provisioned = false })
          attempts) in
    elim (Bool-cases config.autoprovision) [
      | inl t ↦ rw t (ground arith)
      | inr t ↦ rw t (ground arith)
    ]
