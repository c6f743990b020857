-- ===== src/SshTools.antt =====
-- internal/sshtools/ssh.go: how a failed ssh command is classified, and the arguments of an identity.
-- The text of an error (`Error()` of the error) and strings.ToLower are parameters.
pub mod RetryOutput
mod Tests
use virtle.Prelude.{
  contains, String, Bool, true, false, ◌||◌, List, [], ◌∷◌, ◌++◌, Option, none, some, str_eq,
  if◌then◌else◌,
}
use Prim.Native.String.{◌++◌ as str_append}
use virtle.Prelude.Errors.{Error}

pub data Failure : Type 0 where
  failure_none failure_transient failure_authentication : Failure

pub data RetryPhase : Type 0 where
  retry_phase_none retry_phase_waiting retry_phase_connecting : RetryPhase

-- A loop that looks for one of several texts.
unfoldable pub contains_any : String → List String → Bool
contains_any s [] = false
contains_any s (t ∷ ts) = contains s t || contains_any s ts

abbrev pub auth_messages : List String
auth_messages =
    "permission denied (publickey" ∷ "permission denied, please try again"
    ∷ "no more authentication methods to try" ∷ []

abbrev pub connecting_messages : List String
connecting_messages = "connection reset" ∷ "connection closed" ∷ []

abbrev pub waiting_messages : List String
waiting_messages =
    "connection refused" ∷ "connection timed out" ∷ "no route to host" ∷ "network is unreachable"
    ∷ []

-- `RetryPhaseForFailure` of the message
unfoldable pub retry_phase : String → RetryPhase
retry_phase message =
    if contains_any message connecting_messages
    then retry_phase_connecting
    else if contains_any message waiting_messages
    then retry_phase_waiting
    else retry_phase_none

is_retried : RetryPhase → Bool
is_retried retry_phase_none = false
is_retried retry_phase_waiting = true
is_retried retry_phase_connecting = true

-- `ClassifyFailure` of the message
unfoldable pub classify_message : String → Failure
unfolding is_retried
classify_message message =
    if str_eq message ""
    then failure_none
    else if contains_any message auth_messages
    then failure_authentication
    else if is_retried (retry_phase message)
    then failure_transient
    else failure_none

module _ (error_text : Error → String) (to_lower : String → String) where
  -- `lowerFailureMessage`
  unfoldable pub lower_failure_message : Option Error → String → String
  lower_failure_message none stderr = to_lower stderr
  lower_failure_message (some e) stderr =
      to_lower (str_append (error_text e) (str_append "\n" stderr))

  -- `ClassifyFailure`
  unfoldable pub classify_failure : Option Error → String → Failure
  classify_failure e stderr = classify_message (lower_failure_message e stderr)

-- `WithIdentity`
abbrev pub with_identity : List String → String → List String
with_identity exec identity_file = exec ++ "-i" ∷ identity_file ∷ "-o" ∷ "IdentitiesOnly=yes" ∷ []
