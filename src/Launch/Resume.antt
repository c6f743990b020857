-- ===== src/Launch/Resume.antt =====
-- backend/qemu/internal/launch/resume.go and the reading half of state.go: which saved state a launch
-- resumes. What the files hold is an argument: `read` is ReadSuspendState's answer, `stat` os.Stat's.
pub mod Decision
use virtle.Prelude.{String, Bool, true, false, not, ◌||◌, Option, none, some, str_eq, if◌then◌else◌}
use virtle.Prelude.Int.{ℤ, pos, leb_ℤ}
use virtle.Prelude.Errors.{
  Error, Args, text, errorf, wrapf, str, end, Result, ok, err, is_not_exist,
}

pub record SuspendState : Type 0 where
  pub version : String
  pub host_name : String
  pub qmp_socket_path : String
  pub vm_state_path : String
  pub cid : ℤ
  pub timestamp : ℤ
  pub status : String

abbrev pub suspend_status_saved : String
suspend_status_saved = "saved"

-- `NormalizeResumeMode`
unfoldable pub normalize_resume_mode : String → Result String
normalize_resume_mode mode =
    if str_eq mode "" || str_eq mode "no"
    then ok "no"
    else if str_eq mode "auto" || str_eq mode "force"
    then ok mode
    else err (errorf "unsupported resume mode %q" (str mode end))

-- The manifest's paths, and what the file system answers.
pub record Saved : Type 0 where
  pub suspend_state_path : String
  pub vm_state_path : String
  pub read : Result SuspendState
  pub stat : String → Option Error

-- `if mode == auto { return nil, nil }; return nil, e`
abbrev pub or_fresh : String → Error → Result (Option SuspendState)
or_fresh mode e = if str_eq mode "auto" then ok none else err e

-- `state.VMStatePath` with its default.
unfoldable pub with_path : Saved → SuspendState → SuspendState
with_path m s =
    if str_eq s.vm_state_path "" then record s { vm_state_path = m.vm_state_path } else s

check_stream : Saved → String → SuspendState → Option Error → Result (Option SuspendState)
check_stream m mode s none = ok (some s)
check_stream m mode s (some e) =
    or_fresh mode (wrapf "saved vm state %q is not available: %w" (str s.vm_state_path end) e)

-- What the message says of the version that was found.
abbrev written : String → Args → Args
written version rest =
    if str_eq version ""
    then str "no state version marker (written by an older virtle)" rest
    else text (errorf "state version %q" (str version end)) rest

check_state : Saved → String → String → SuspendState → Result (Option SuspendState)
check_state m mode state_version s =
    if not (str_eq s.status suspend_status_saved)
    then or_fresh mode (
        errorf "suspend state %q has status %q, not saved; run virtle suspend first"
          (str m.suspend_state_path (str s.status end)))
    else if not (str_eq s.version state_version)
    then err (
        errorf
          "suspend state %q has %s; this virtle resumes %q — resume with the virtle that wrote it or discard the state"
          (str m.suspend_state_path (written s.version (str state_version end))))
    else if leb_ℤ s.cid (pos 0)
    then or_fresh mode (
        errorf "saved suspend state %q does not include a valid vsock CID"
          (str m.suspend_state_path end))
    else check_stream m mode (with_path m s) (m.stat (with_path m s).vm_state_path)

check_read : Saved → String → String → Result SuspendState → Result (Option SuspendState)
check_read m mode state_version (err e) =
    if is_not_exist e
    then or_fresh mode (
        errorf "no saved suspend state found at %q; run virtle suspend first"
          (str m.suspend_state_path end))
    else err e
check_read m mode state_version (ok s) = check_state m mode state_version s

-- `ResolveResumeState`: `ok none` boots fresh.
unfoldable pub resolve_resume_state : Saved → String → String → Result (Option SuspendState)
unfolding check_read check_state check_stream
resolve_resume_state m mode state_version =
    if str_eq mode "no" then ok none else check_read m mode state_version m.read

saved_status : Result SuspendState → Result Bool
saved_status (err e) = if is_not_exist e then ok false else err e
saved_status (ok s) = ok (str_eq s.status suspend_status_saved)

-- `HasSavedSuspendState`
unfoldable pub has_saved_suspend_state : Saved → Result Bool
unfolding saved_status
has_saved_suspend_state m = saved_status m.read
