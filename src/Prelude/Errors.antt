-- ===== src/Prelude/Errors.antt =====
-- Go's error values: nil is `none`, and an error is a tree, since one error can wrap others.
use mathlib.Core.Option.{Option, none, some}
use mathlib.Core.List.{List, [], ◌∷◌}
use mathlib.Core.Bool.{Bool, true, false}
use Prim.Native.String.{String}
use virtle.Prelude.Int.{ℤ}

mutual
  -- `errorf` is errors.New or fmt.Errorf without %w, `wrapf` fmt.Errorf with %w, `exit` an
  -- exec.ExitError with its code, `broken` and `wire_error` are qmpwire's, `join` what
  -- errors.Join returns, `unsupported` errors.ErrUnsupported and `saved_suspend_exit` launch's;
  -- `eof` is io.EOF, `net_closed` net.ErrClosed, and `timeout` a net.Error whose Timeout answers true; `exceeded` is
  -- a limits.Error and `rpc` a control.RPCError.
  pub data Error : Type 0 where
    errorf : String → Args → Error
    wrapf : String → Args → Error → Error
    exit : ℤ → Error
    canceled deadline_exceeded not_exist process_done broken saved_suspend_exit unsupported eof
          net_closed timeout :
        Error
    wire_error : Error → Error
    exceeded : String → ℤ → String → Error
    rpc : String → String → Error
    stage_error : String → Error → Error
    command_error : String → String → ℤ → Error → Error
    join : Errors → Error

  -- The arguments of a format; `text` prints an error's message (%s, %v).
  pub data Args : Type 0 where
    end : Args
    str : String → Args → Args
    num : ℤ → Args → Args
    text : Error → Args → Args

  pub data Errors : Type 0 where
    nil : Errors
    cons : Error → Errors → Errors

pub data Result {ℓ} (A : Type ℓ) : Type ℓ where
  ok : A → Result A
  err : Error → Result A

-- The errors that are not nil.
unfoldable pub non_nil : List (Option Error) → Errors
non_nil [] = nil
non_nil (none ∷ es) = non_nil es
non_nil (some e ∷ es) = cons e (non_nil es)

abbrev pub plain : String → Error
plain message = errorf message end

abbrev join_of : Errors → Option Error
join_of nil = none
join_of (cons e es) = some (join (cons e es))

-- errors.Join: nil arguments are discarded, and the result is nil if nothing is left.
unfoldable pub errors_join : List (Option Error) → Option Error
unfolding non_nil
errors_join es = join_of (non_nil es)

-- errors.Is and errors.As walk an error's tree in preorder; `f` answers at a single error.
abbrev pub first_some {ℓ} : {A : Type ℓ} → Option A → Option A → Option A
first_some none o = o
first_some (some a) o = some a

unfoldable mutual
  pub errors_find : {A : Type 0} → (Error → Option A) → Error → Option A
  errors_find f (errorf s xs) = f (errorf s xs)
  errors_find f (wrapf s xs e) = first_some (f (wrapf s xs e)) (errors_find f e)
  errors_find f (exit c) = f (exit c)
  errors_find f canceled = f canceled
  errors_find f deadline_exceeded = f deadline_exceeded
  errors_find f not_exist = f not_exist
  errors_find f process_done = f process_done
  errors_find f broken = f broken
  errors_find f saved_suspend_exit = f saved_suspend_exit
  errors_find f unsupported = f unsupported
  errors_find f eof = f eof
  errors_find f net_closed = f net_closed
  errors_find f timeout = f timeout
  errors_find f (exceeded r n u) = f (exceeded r n u)
  errors_find f (rpc c m) = f (rpc c m)
  errors_find f (wire_error e) = first_some (f (wire_error e)) (errors_find f e)
  errors_find f (stage_error s e) = first_some (f (stage_error s e)) (errors_find f e)
  errors_find f (command_error s c x e) = first_some (f (command_error s c x e)) (errors_find f e)
  errors_find f (join es) = first_some (f (join es)) (errors_find_all f es)

  pub errors_find_all : {A : Type 0} → (Error → Option A) → Errors → Option A
  errors_find_all f nil = none
  errors_find_all f (cons e es) = first_some (errors_find f e) (errors_find_all f es)

at_not_exist : Error → Option Bool
at_not_exist not_exist = some true
at_not_exist _ = none

abbrev found : Option Bool → Bool
found none = false
found (some b) = b

-- errors.Is(err, os.ErrNotExist)
unfoldable pub is_not_exist : Error → Bool
unfolding errors_find at_not_exist
is_not_exist e = found (errors_find at_not_exist e)

unfoldable pub at_saved : Error → Option Bool
at_saved saved_suspend_exit = some true
at_saved _ = none

-- `launch.IsSavedSuspendExit` at an error that is not nil
unfoldable pub is_saved_suspend_exit : Error → Bool
unfolding errors_find at_saved
is_saved_suspend_exit e = found (errors_find at_saved e)
