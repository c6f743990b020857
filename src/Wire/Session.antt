-- ===== src/Wire/Session.antt =====
-- `Session` of backend/qemu/internal/qmpwire/session.go: operations on one connection, one at a time.
pub mod Trust
use virtle.Prelude.{
  ℕ, Bool, true, false, not, ◌&&◌, ◌||◌, List, [], ◌∷◌, Option, none, some, if◌then◌else◌,
}
use virtle.Prelude.Errors.{Error, errorf, wrapf, broken, wire_error, text, end, errors_find}

at_wire : Error → Option Bool
at_wire (wire_error e) = some true
at_wire _ = none

found : Option Bool → Bool
found none = false
found (some b) = b

-- `IsWireError`
unfoldable pub is_wire_error : Error → Bool
unfolding errors_find at_wire found
is_wire_error e = found (errors_find at_wire e)

-- An operation: the cause if the context has ended before it, whether the context can end at all,
-- what the calls answer, and whether the context ended while `fn` ran.
pub record Operation : Type 0 where
  pub ended : Option Error
  pub can_end : Bool
  pub deadline_error : Option Error
  pub fn_error : Option Error
  pub ended_meanwhile : Bool

-- What `do` returns, whether `fn` ran, and the session's `broken` afterwards.
pub record Done : Type 0 where
  pub error : Option Error
  pub ran : Bool
  pub broken_by : Option Error

abbrev interrupted : Operation → Bool
interrupted op = op.can_end && op.ended_meanwhile

-- The deferred function.
settle : Operation → Option Error → Done
settle op none = record { error = none; ran = true; broken_by = none }
settle op (some e) = record {
  error = some e;
  ran = true;
  broken_by = if interrupted op || is_wire_error e then some e else none;
}

refuse : Error → Option Error → Done
refuse e broken_by = record { error = some e; ran = false; broken_by = broken_by }

at_deadline : Operation → Option Error → Done
unfolding settle refuse
at_deadline op (some e) = refuse e none
at_deadline op none = settle op op.fn_error

at_context : Operation → Option Error → Done
unfolding refuse at_deadline
at_context op (some cause) = refuse cause none
at_context op none = at_deadline op op.deadline_error

-- `Session.do` on a session with this `broken`.
unfoldable pub session_do : Option Error → Operation → Done
unfolding at_context refuse
session_do (some e) op = refuse (wrapf "%w: %v" (text e end) broken) (some e)
session_do none op = at_context op op.ended

-- Operations after one another, as the lock has them.
unfoldable pub session_run : Option Error → List Operation → List Done
session_run b [] = []
session_run b (op ∷ ops) = let d = session_do b op in d ∷ session_run d.broken_by ops
