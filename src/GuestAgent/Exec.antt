-- ===== src/GuestAgent/Exec.antt =====
-- Guest commands: `Exec`, `ExecStatus`, `Shutdown` and `run` of backend/qemu/internal/qga/qga.go, and
-- `RunCommandStatus` of qga/exec.go. What json.Unmarshal makes of a response is an argument.
pub mod Polling
use virtle.Prelude.{
  ℕ, ◌+◌, String, Bool, true, false, not, ◌||◌, List, [], ◌∷◌, Option, none, some, str_eq, ltb,
  if◌then◌else◌,
}
use Prim.Native.String.{len}
use virtle.Prelude.Int.{ℤ, pos, leb_ℤ}
use virtle.Prelude.Errors.{
  exceeded, Error, Result, ok, err, errorf, wrapf, str, num, end, errors_find, deadline_exceeded,
  eof, net_closed, timeout,
}

pub record EnvelopeError : Type 0 where
  pub class : String
  pub desc : String

-- `qmpwire.Envelope`, with the response that it returns.
pub record Envelope {ℓ} (A : Type ℓ) : Type ℓ where
  pub event : String
  pub error : Option EnvelopeError
  pub response : A

answer {ℓ} : {A : Type ℓ} → String → A → Option EnvelopeError → Result A
answer execute response none = ok response
answer execute response (some e) =
    if str_eq e.desc ""
    then err (errorf "guest agent command %q failed with %s" (str execute (str e.class end)))
    else err (errorf "%s" (str e.desc end))

-- The loop of `run` over what DecodeEnvelope returns; `none` while no response has come.
unfoldable pub receive {ℓ} : {A : Type ℓ} → String → List (Result (Envelope A)) → Option (Result A)
unfolding answer
receive execute [] = none
receive execute (err e ∷ more) = some (err e)
receive execute (ok envelope ∷ more) =
    let later = receive execute more in
    if str_eq envelope.event ""
    then some (answer execute envelope.response envelope.error)
    else later

-- `Exec` on what `run` returned and what became of its response.
unfoldable pub exec : String → Result (Result ℤ) → Result ℤ
exec path (err e) = err (wrapf "guest agent exec %q: %w" (str path end) e)
exec path (ok (err e)) = err (wrapf "guest agent exec %q returned invalid pid: %w" (str path end) e)
exec path (ok (ok pid)) =
    if leb_ℤ pid (pos 0)
    then err (errorf "guest agent exec %q returned invalid pid %d" (str path (num pid end)))
    else ok pid

pub record ExecStatus : Type 0 where
  pub exited : Bool
  pub exit_code : ℤ
  pub out_data : String
  pub err_data : String

-- The response of guest-exec-status.
pub record StatusResponse : Type 0 where
  pub exited : Bool
  pub exit_code : Option ℤ
  pub out_data : String
  pub err_data : String

abbrev or_zero : Option ℤ → ℤ
or_zero none = pos 0
or_zero (some code) = code

-- `ExecStatus`
unfoldable pub exec_status : ℕ → ℤ → Result (Result StatusResponse) → Result ExecStatus
exec_status limit pid (err e) = err (wrapf "guest agent exec-status pid %d: %w" (num pid end) e)
exec_status limit pid (ok (err e)) =
    err (wrapf "guest agent exec-status pid %d returned invalid status: %w" (num pid end) e)
exec_status limit pid (ok (ok r)) =
    if ltb limit (len r.out_data + len r.err_data)
    then err (exceeded "guest command output" (pos limit) "")
    else ok (record {
      exited = r.exited;
      exit_code = or_zero r.exit_code;
      out_data = r.out_data;
      err_data = r.err_data;
    })

-- One poll: the answer to guest-exec-status, and the cause if the context ends before the next tick.
pub record Poll : Type 0 where
  pub response : Result (Result StatusResponse)
  pub ended : Option Error

wait_error : String → String → Error → Option (Result ExecStatus)
wait_error name subject e = some (err (wrapf "%s %q: %w" (str name (str subject end)) e))

after_select :
    String → String → Option Error → Option (Result ExecStatus) → Option (Result ExecStatus)
unfolding wait_error
after_select name subject none later = later
after_select name subject (some cause) later = wait_error name subject cause

polled :
    String
    → String
    → Poll
    → Result ExecStatus
    → Option (Result ExecStatus)
    → Option (Result ExecStatus)
unfolding wait_error after_select
polled name subject p (err e) later = wait_error name subject e
polled name subject p (ok s) later =
    if s.exited then some (ok s) else after_select name subject p.ended later

module _ (limit : ℕ) (name subject : String) where
  -- The loop of `RunCommandStatus`; `none` while the command runs.
  poll_loop : ℤ → List Poll → Option (Result ExecStatus)
  unfolding polled
  poll_loop pid [] = none
  poll_loop pid (p ∷ polls) =
      polled name subject p (exec_status limit pid p.response) (poll_loop pid polls)

  started : Result ℤ → List Poll → Option (Result ExecStatus)
  unfolding wait_error poll_loop
  started (err e) polls = wait_error name subject e
  started (ok pid) polls = poll_loop pid polls

  -- `RunCommandStatus`
  unfoldable pub run_command_status :
      String → Result (Result ℤ) → List Poll → Option (Result ExecStatus)
  unfolding started
  run_command_status path answered polls = started (exec path answered) polls

at_gone : Error → Option Bool
at_gone deadline_exceeded = some true
at_gone timeout = some true
at_gone eof = some true
at_gone net_closed = some true
at_gone _ = none

found : Option Bool → Bool
found none = false
found (some b) = b

-- `Shutdown`, on the error of `run`.
unfoldable pub shutdown : Option Error → Option Error
unfolding errors_find at_gone found
shutdown none = none
shutdown (some e) =
    if found (errors_find at_gone e) then none else some (wrapf "guest agent shutdown: %w" end e)
