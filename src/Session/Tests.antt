-- ===== src/Session/Tests.antt =====
-- The session theorems at concrete inputs.
use virtle.Prelude.{◌≤◌, String, true, false, ◌≡◌, refl, List, [], ◌∷◌, Option, none, some}
use virtle.Prelude.Int.{pos, negsuc}
use virtle.Prelude.Errors.{
  is_saved_suspend_exit, nil, cons, errors_find, join, command_error, Error, ok, err, not_exist,
  plain, exit, errors_join, wrapf, end, saved_suspend_exit,
}
use virtle.Session.Waits.{wait_ready, wait_for_ssh_process, wait_for_ssh_retry, wait_for_machine}
use virtle.SshTools.{
  classify_message, lower_failure_message, contains_any, retry_phase, Failure, classify_failure,
}
use virtle.Session.{
  shutdown_after, handle_suspend, after, requests, bridge_commit, ended, token_read, timer, request,
  sigusr1, signal, process_exited, Hooks, Machine, Ended,
}
use virtle.Session.Ssh.{SshConfig, Attempt, run_ssh_session, run_ssh}
use virtle.Session.Run.{Options, Surroundings, own_machine, foreground}
use virtle.Session.Run.Order.{own_machine_order}
use virtle.Session.Run.Teardown.{own_machine_closes, any_down}
use virtle.Session.Ssh.Order.{ssh_trace}
use virtle.Session.Ssh.Provision.{run_ssh_session_provisions, installs}
use virtle.Session.ExitCode.{exit_code}

abbrev machine : Machine
machine = record {
  error = none;
  shutdown_error = none;
  reporter = some (ok (record { ready_socket = "/run/ready.sock"; cid = pos 3 }));
  suspender = none;
}

abbrev hooks : Hooks
hooks = record {
  suspend_requests = some true;
  handle_suspend_request = some (some saved_suspend_exit);
  suspend = some (some saved_suspend_exit);
  commit_resume = some none;
}

abbrev config : SshConfig
config = record { argv = "ssh" ∷ []; autoprovision = true }

-- The connection is reset before the guest listens.
abbrev early : Attempt
early = record {
  build_error = none;
  start_error = none;
  events = process_exited (some (exit (pos 255))) ∷ [];
  stderr = "connection reset by peer";
  retry_events = signal sigusr1 ∷ timer ∷ [];
  key = ok "/state/id_ed25519";
  install_error = none;
}

abbrev refused : Attempt
refused = record early { stderr = "permission denied (publickey)." }

-- A suspend that arrives while the command runs.
abbrev suspended : Attempt
suspended = record early { events = signal sigusr1 ∷ request ∷ []; stderr = "" }

-- The text of the error is not looked at here.
abbrev classify : Option Error → String → Failure
classify = classify_failure (λ e. "exit status 255") (λ s. s)

abbrev attempts : List Attempt
attempts = early ∷ refused ∷ early ∷ suspended ∷ []

abbrev surroundings : Surroundings
surroundings = record {
  state = record {
    suspend_state_path = "/state/suspend.json";
    vm_state_path = "/state/vm.state";
    read = err not_exist;
    stat = λ path. none;
  };
  start = ok machine;
  resume = none;
  dial_error = none;
  ready_events = signal sigusr1 ∷ token_read none ∷ [];
  hint = ok "ssh vm@vsock/3";
  write_error = none;
  events = signal sigusr1 ∷ ended (plain "terminated") ∷ [];
  attempts = attempts;
}

abbrev with_ssh : Options
with_ssh = record { resume = "auto"; ssh = true }

abbrev without_ssh : Options
without_ssh = record { resume = "auto"; ssh = false }

or_nothing : Option Ended → Ended
or_nothing none = record { error = none; actions = [] }
or_nothing (some r) = r

abbrev ssh_end : Ended
ssh_end = or_nothing (own_machine machine hooks classify config surroundings with_ssh false)

ssh_ends : own_machine machine hooks classify config surroundings with_ssh false ≡ some ssh_end
unfolding own_machine or_nothing wait_ready foreground run_ssh run_ssh_session bridge_commit
    wait_for_ssh_process classify_failure classify_message lower_failure_message contains_any
    retry_phase wait_for_ssh_retry requests after handle_suspend
ssh_ends = refl

own_machine_order_example : ssh_trace false ssh_end.actions ≡ some false
own_machine_order_example =
    own_machine_order machine hooks classify config surroundings with_ssh false ssh_end refl
      ssh_ends

abbrev foreground_end : Ended
foreground_end = or_nothing (foreground machine hooks classify config surroundings with_ssh)

foreground_ends :
    foreground machine hooks classify config surroundings with_ssh ≡ some foreground_end
unfolding own_machine or_nothing wait_ready foreground run_ssh run_ssh_session bridge_commit
    wait_for_ssh_process classify_failure classify_message lower_failure_message contains_any
    retry_phase wait_for_ssh_retry requests after handle_suspend
foreground_ends = refl

abbrev terminated : Error
terminated = join (cons (plain "terminated") nil)

abbrev terminated_end : Ended
terminated_end =
    or_nothing (own_machine machine hooks classify config surroundings without_ssh false)

terminates :
    own_machine machine hooks classify config surroundings without_ssh false ≡ some terminated_end
unfolding own_machine or_nothing wait_ready foreground run_ssh run_ssh_session bridge_commit
    wait_for_ssh_process classify_failure classify_message lower_failure_message contains_any
    retry_phase wait_for_ssh_retry requests after handle_suspend wait_for_machine shutdown_after
terminates = refl

terminates_with : terminated_end.error ≡ some terminated
unfolding own_machine or_nothing wait_ready foreground run_ssh run_ssh_session bridge_commit
    wait_for_ssh_process classify_failure classify_message lower_failure_message contains_any
    retry_phase wait_for_ssh_retry requests after handle_suspend wait_for_machine shutdown_after
    errors_join is_saved_suspend_exit
terminates_with = refl

own_machine_closes_example : any_down terminated_end.actions ≡ true
own_machine_closes_example =
    own_machine_closes machine hooks classify config surroundings without_ssh false terminated_end
      terminated terminates terminates_with

abbrev session_end : Ended
session_end = or_nothing (run_ssh_session machine hooks classify config attempts)

session_ends : run_ssh_session machine hooks classify config attempts ≡ some session_end
unfolding own_machine or_nothing wait_ready foreground run_ssh run_ssh_session bridge_commit
    wait_for_ssh_process classify_failure classify_message lower_failure_message contains_any
    retry_phase wait_for_ssh_retry requests after handle_suspend
session_ends = refl

run_ssh_session_provisions_example : installs session_end.actions ≤ 1
run_ssh_session_provisions_example =
    run_ssh_session_provisions machine hooks classify config attempts session_end session_ends

-- A key is installed, and the next attempt uses it.
session_installs : installs session_end.actions ≡ 1
unfolding own_machine or_nothing wait_ready foreground run_ssh run_ssh_session bridge_commit
    wait_for_ssh_process classify_failure classify_message lower_failure_message contains_any
    retry_phase wait_for_ssh_retry requests after handle_suspend installs
session_installs = refl

abbrev killed : Error
killed = wrapf "ssh: %w" end (exit (negsuc 0))

killed_code : exit_code (some killed) ≡ pos 1
unfolding exit_code errors_find
killed_code = refl

abbrev clean : Error
clean = command_error "active session" "virtiofsd" (pos 0) (exit (pos 0))

clean_code : exit_code (some clean) ≡ pos 0
unfolding exit_code errors_find
clean_code = refl
