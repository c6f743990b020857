-- ===== src/Runtime/Core.antt =====
-- backend/qemu/internal/runtime/concrete.go and lifecycle.go: what clients and the launch do to a
-- running machine. A suspend is two steps, and a teardown one step for each of its actions, with other
-- calls in between.
pub mod Lifecycle
use virtle.Prelude.{
  ℕ, Bool, true, false, not, ◌&&◌, ◌≡◌, List, [], ◌∷◌, ◌++◌, Option, none, some, if◌then◌else◌,
}
use virtle.Prelude.Errors.{Error, errors_join}
use virtle.Runtime.State.{
  State, RuntimeState, starting, ready, suspending, suspended, stopping, stopped, new_state, set,
  finish,
}
use virtle.Runtime.Closer.{
  Action, Once, fresh, running, over, Closer, new_closer, CloseActions, unless, write_back,
  close_control, close_processes, disconnect_qmp, clean_up,
}

-- What a client or the launch gets, in order; the answer of a Kill has the error of KillAndWait with it.
pub data Reply : Type 0 where
  shutdown_reply : Option Error → Reply
  kill_reply : Option Error → Option Error → Reply
  suspend_reply : Option Error → Reply

-- Who calls `Shutdown`: a client or the launch, or `Kill` after KillAndWait, with that one's error, which
-- is none too where there is no process.
pub data Caller : Type 0 where
  shutting : Caller
  killing : Option Error → Caller

-- What the caller returns for the error of the teardown.
unfoldable pub reply : Caller → Option Error → Reply
reply shutting e = shutdown_reply e
reply (killing own) e = kill_reply own (errors_join (own ∷ e ∷ []))

-- `left`, `so_far` and `caller` are of the call that gets through `once`: the actions that it has still
-- to take, with what they will answer, its error so far, and who made it.
pub record Core : Type 0 where
  pub state : State
  pub closer : Closer
  pub left : List (Action × Option Error)
  pub so_far : Option Error
  pub caller : Caller
  pub saved_suspend : Bool
  pub replies : List Reply

-- `New`
abbrev pub new_core : Core
new_core = record {
  state = new_state starting;
  closer = new_closer;
  left = [];
  so_far = none;
  caller = shutting;
  saved_suspend = false;
  replies = [];
}

-- `SetReady`
abbrev pub set_ready : Core → Core
set_ready r = record r { state = set r.state ready }

-- `MarkSavedSuspend`
abbrev pub mark_saved_suspend : Core → Core
mark_saved_suspend r = record r { saved_suspend = true }

-- `closeActions` of `Shutdown`.
abbrev pub actions : Core → CloseActions → CloseActions
actions r answers = record answers { skip_write_back = r.saved_suspend }

-- The actions of `Run` in their order.
abbrev pub set_action : Action → Option (Option Error) → List (Action × Option Error)
set_action a none = []
set_action a (some answer) = (a, answer) ∷ []

unfoldable pub to_do : CloseActions → List (Action × Option Error)
to_do a =
    set_action write_back (unless a.skip_write_back a.write_back)
    ++ (set_action close_control a.control
        ++ (set_action close_processes a.processes
            ++ (set_action disconnect_qmp a.qmp ++ set_action clean_up a.cleanup)))

-- `Shutdown` up to the actions: the call that gets through `once` sets the state.
unfoldable pub begin_close : Core → Caller → CloseActions → Core
unfolding to_do
begin_close r caller answers = record r {
  state = set r.state stopping;
  closer = record (r.closer) { once = running };
  left = to_do (actions r answers);
  so_far = none;
  caller = caller;
}

-- One action, and the rest is left.
unfoldable pub take_action : Core → Action → Option Error → List (Action × Option Error) → Core
take_action r a answer rest = record r {
  closer = record (r.closer) { did = r.closer.did ++ a ∷ [] };
  left = rest;
  so_far = errors_join (r.so_far ∷ answer ∷ []);
}

-- What is left of `Close` after the actions.
unfoldable pub end_close : Core → Core
end_close r = record r {
  state = finish (set r.state stopped) r.so_far;
  closer = record (r.closer) { once = over; err = r.so_far };
  replies = r.replies ++ reply r.caller r.so_far ∷ [];
}

-- A further `Shutdown` or `Kill`, which waits for the first and returns its error.
unfoldable pub close_again : Core → Caller → Core
close_again r caller = record r { replies = r.replies ++ reply caller r.closer.err ∷ [] }

-- `queueSuspend` up to the request.
unfoldable pub begin_suspend : Core → Core
begin_suspend r = record r { state = set r.state suspending }

-- What is left of it once the request has its answer: `saved` says whether an error is the exit of a
-- machine that was saved.
unfoldable pub end_suspend : Core → Option Error → Bool → Core
end_suspend r none saved = record r {
  state = set r.state suspended;
  replies = r.replies ++ suspend_reply none ∷ [];
}
end_suspend r (some e) true = record r {
  state = set r.state suspended;
  replies = r.replies ++ suspend_reply none ∷ [];
}
end_suspend r (some e) false = record r { replies = r.replies ++ suspend_reply (some e) ∷ [] }

-- One call or part of a call.
pub data Step (r : Core) : Core → Type 0 where
  becoming_ready : Step r (set_ready r)
  marking : Step r (mark_saved_suspend r)
  closing :
      (caller : Caller) (answers : CloseActions)
      → r.closer.once ≡ fresh
      → Step r (begin_close r caller answers)
  acting :
      (a : Action) (answer : Option Error) (rest : List (Action × Option Error))
      → r.closer.once ≡ running
      → r.left ≡ (a, answer) ∷ rest
      → Step r (take_action r a answer rest)
  closed : r.closer.once ≡ running → r.left ≡ [] → Step r (end_close r)
  closing_again : (caller : Caller) → r.closer.once ≡ over → Step r (close_again r caller)
  asking : Step r (begin_suspend r)
  answering : (answer : Option Error) (saved : Bool) → Step r (end_suspend r answer saved)

pub data Reach : Core → Type 0 where
  new : Reach new_core
  next : {r r' : Core} → Reach r → Step r r' → Reach r'
