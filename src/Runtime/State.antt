-- ===== src/Runtime/State.antt =====
-- backend/qemu/internal/runtime/state.go and the first half of lifecycle.go: the state that clients
-- see and the result that they wait for.
use virtle.Prelude.{Bool, true, false, ◌≡◌, Option, none, some, if◌then◌else◌}
use virtle.Prelude.Errors.{Error}

-- `control.RuntimeState`
pub data RuntimeState : Type 0 where
  starting ready suspending suspended stopping stopped : RuntimeState

-- `done` says whether the channel is closed, and so whether `once` has run.
pub record State : Type 0 where
  pub value : RuntimeState
  pub done : Bool
  pub err : Option Error

-- `newState`
abbrev pub new_state : RuntimeState → State
new_state initial = record { value = initial; done = false; err = none }

-- `Finish`
unfoldable pub finish : State → Option Error → State
finish s e = if s.done then s else record s { done = true; err = e }

-- `Set`
abbrev pub set : State → RuntimeState → State
set s value = record s { value = value }

-- `Wait` on a state, with the cause of the context's end if it has ended: what it may return. It
-- returns nothing while neither channel is ready, and either answer if both are.
pub data Wait (s : State) (cause : Option Error) : Option Error → Type 0 where
  finished : s.done ≡ true → Wait s cause s.err
  ended : {e : Error} → cause ≡ some e → Wait s cause (some e)
