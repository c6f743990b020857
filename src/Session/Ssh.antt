-- ===== src/Session/Ssh.antt =====
-- `RunSSHSession` of backend/qemu/internal/launch/ssh_session.go as backend/qemu/session/session.go
-- sets it up. An attempt is what its surroundings answer; when the attempts are used up the session
-- goes on, which is `none`.
pub mod Order
pub mod Provision
use virtle.Prelude.{
  String, Bool, true, false, List, [], ◌∷◌, ◌++◌, Option, none, some, not, ◌&&◌, if◌then◌else◌,
}
use virtle.Prelude.Errors.{Error, Result, ok, err, stage_error, wrapf, end, unsupported}
use virtle.SshTools.{
  Failure, failure_none, failure_transient, failure_authentication, with_identity,
}
use virtle.Session.{
  Event, Action, start_ssh, stop_ssh, ensure_key, install_key, Hooks, Machine, Status, Ended,
  bridge_commit, after,
}
use virtle.Session.Waits.{wait_for_ssh_process, wait_for_ssh_retry}

-- The errors of building and of starting the command, what is seen while it runs and while a retry is
-- due, its error output, and what EnsureKey (the identity file) and InstallKey return.
pub record Attempt : Type 0 where
  pub build_error : Option Error
  pub start_error : Option Error
  pub events : List Event
  pub stderr : String
  pub retry_events : List Event
  pub key : Result String
  pub install_error : Option Error

-- `manifest.ssh`
pub record SshConfig : Type 0 where
  pub argv : List String
  pub autoprovision : Bool

-- The state of the loop.
pub record Loop : Type 0 where
  pub argv : List String
  pub provisioned : Bool

abbrev active_session : String
active_session = "active session"

-- An end with an error.
abbrev failed : Error → List Action → Option Ended
failed e did = some (record { error = some e; actions = did })

-- What was done before an end that may be due.
abbrev pub after_all : List Action → Option Ended → Option Ended
after_all did none = none
after_all did (some r) = some (after did r)

-- `if waitErr != nil { return waitErr }`, or the next attempt.
retried : Ended → Option Error → Option Ended → Option Ended
retried r none go_on = after_all r.actions go_on
retried r (some e) go_on = some r

after_retry : Option Ended → Option Ended → Option Ended
unfolding retried
after_retry none go_on = none
after_retry (some r) go_on = retried r r.error go_on

after_install : Option Error → Option Ended → Option Ended
after_install none go_on = after_all (ensure_key ∷ install_key ∷ []) go_on
after_install (some e) go_on = failed e (ensure_key ∷ install_key ∷ [])

-- The new key, given the argv of the manifest.
provision : SshConfig → Attempt → Result String → (Loop → Option Ended) → Option Ended
unfolding after_install
provision config a (err e) go_on = failed (stage_error "ssh autoprovision" e) (ensure_key ∷ [])
provision config a (ok identity_file) go_on =
    after_install a.install_error
      (go_on (record { argv = with_identity config.argv identity_file; provisioned = true }))

abbrev is_authentication : Failure → Bool
is_authentication failure_authentication = true
is_authentication failure_none = false
is_authentication failure_transient = false

-- What becomes of a failure that is not transient.
give_up : SshConfig → Loop → Attempt → Failure → Error → (Loop → Option Ended) → Option Ended
unfolding provision
give_up config l a failure e go_on =
    if config.autoprovision && not l.provisioned && is_authentication failure
    then provision config a a.key go_on
    else failed e []

module _ (m : Machine) (h : Hooks) where
  -- The steps after an attempt that failed.
  on_failure : SshConfig → Loop → Attempt → Failure → Error → (Loop → Option Ended) → Option Ended
  unfolding after_retry give_up
  on_failure config l a failure_transient e go_on =
      after_retry (wait_for_ssh_retry m h a.retry_events) (go_on l)
  on_failure config l a failure_none e go_on = give_up config l a failure_none e go_on
  on_failure config l a failure_authentication e go_on =
      give_up config l a failure_authentication e go_on

  module _ (classify : Option Error → String → Failure) (config : SshConfig) where
    after_wait : Loop → Attempt → Ended → Option Error → (Loop → Option Ended) → Option Ended
    unfolding on_failure
    after_wait l a r none go_on = some r
    after_wait l a r (some e) go_on =
        after_all r.actions (on_failure config l a (classify (some e) a.stderr) e go_on)

    waited : Loop → Attempt → Option Ended → (Loop → Option Ended) → Option Ended
    unfolding after_wait
    waited l a none go_on = none
    waited l a (some r) go_on = after_wait l a r r.error go_on

    -- `if err := session.Established(); err != nil { ... }`, and the wait.
    established : Loop → Attempt → Ended → Option Error → (Loop → Option Ended) → Option Ended
    unfolding waited
    established l a c none go_on =
        after_all c.actions (waited l a (wait_for_ssh_process m h a.events) go_on)
    established l a c (some e) go_on =
        failed (stage_error active_session e) (c.actions ++ stop_ssh ∷ [])

    started : Loop → Attempt → Option Error → (Loop → Option Ended) → Option Ended
    unfolding established
    started l a (some e) go_on = failed (stage_error active_session e) []
    started l a none go_on =
        after_all (start_ssh l.argv ∷ [])
          (established l a (bridge_commit h) (bridge_commit h).error go_on)

    built : Loop → Attempt → Option Error → (Loop → Option Ended) → Option Ended
    unfolding started
    built l a (some e) go_on = failed (stage_error active_session e) []
    built l a none go_on = started l a a.start_error go_on

    -- The loop of `RunSSHSession`.
    ssh_loop : Loop → List Attempt → Option Ended
    unfolding built
    ssh_loop l [] = none
    ssh_loop l (a ∷ rest) = built l a a.build_error (λ l'. ssh_loop l' rest)

    unfoldable pub run_ssh_session : List Attempt → Option Ended
    unfolding ssh_loop
    run_ssh_session attempts =
        ssh_loop (record { argv = config.argv; provisioned = false }) attempts

    ssh_status : List Attempt → Option (Result Status) → Option Ended
    ssh_status attempts none =
        failed (wrapf "machine cannot report its SSH destination: %w" end unsupported) []
    ssh_status attempts (some (err e)) = failed e []
    ssh_status attempts (some (ok s)) = run_ssh_session attempts

    -- `runSSH`
    unfoldable pub run_ssh : List Attempt → Option Ended
    unfolding ssh_status
    run_ssh attempts = ssh_status attempts m.reporter
