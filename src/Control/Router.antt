-- ===== src/Control/Router.antt =====
-- internal/control/router.go, with the names of types.go. A handler that is nil is `false`; what a
-- handler answers for its parameters, the text of an error and what json.Marshal makes of a result are
-- arguments.
pub mod Methods
use virtle.Prelude.{
  String, Bool, true, false, List, [], ◌∷◌, Option, none, some, str_eq, is_some, if◌then◌else◌,
}
use virtle.Prelude.Int.{ℤ}
use virtle.Prelude.Errors.{Error, Result, ok, err, errors_find, rpc, plain}
use Prim.Native.String.{◌++◌ as str_append}

-- `Handlers`
pub record Handlers : Type 0 where
  pub core : Bool
  pub kill : Bool
  pub shutdown : Bool
  pub guest : Bool
  pub suspend : Bool
  pub hotplug : Bool
  pub balloon : Bool

-- The functions that methods are bound to: those of the handlers, and `methodsResponse`.
pub data HandlerCall : Type 0 where
  status methods_list wait kill shutdown_rpc guest_ps guest_exec guest_read guest_write :
      HandlerCall
  guest_shutdown suspend hotplug balloon : HandlerCall

-- `if handlers.X == nil { return nil }`
selected : Bool → HandlerCall → Option HandlerCall
selected set c = if set then some c else none

-- `defaultMethods` in `defaultMethodOrder`: what a method is bound to, given the handlers.
unfoldable pub default_methods : List (String × (Handlers → Option HandlerCall))
unfolding selected
default_methods =
    ("status", λ h. selected h.core status)
    ∷ ("methods", λ h. some methods_list)
    ∷ ("wait", λ h. selected h.core wait)
    ∷ ("kill", λ h. selected h.kill kill)
    ∷ ("shutdown", λ h. selected h.shutdown shutdown_rpc)
    ∷ ("guest-ps", λ h. selected h.guest guest_ps)
    ∷ ("guest-exec", λ h. selected h.guest guest_exec)
    ∷ ("guest-read", λ h. selected h.guest guest_read)
    ∷ ("guest-write", λ h. selected h.guest guest_write)
    ∷ ("guest-shutdown", λ h. selected h.guest guest_shutdown)
    ∷ ("suspend", λ h. selected h.suspend suspend)
    ∷ ("hotplug", λ h. selected h.hotplug hotplug)
    ∷ ("balloon", λ h. selected h.balloon balloon)
    ∷ []

pub record RpcError : Type 0 where
  pub code : String
  pub message : String

-- `requestEnvelope` and `responseEnvelope`; a result that is absent is `none`.
pub record Request : Type 0 where
  pub id : ℤ
  pub method : String
  pub params : String

pub record Response : Type 0 where
  pub id : ℤ
  pub result : Option String
  pub error : Option RpcError

abbrev pub failure : ℤ → String → String → Response
failure id code message = record {
  id = id;
  result = none;
  error = some (record { code = code; message = message });
}

-- Whether a name is known, and then what it is bound to.
lookup :
    Handlers
    → List (String × (Handlers → Option HandlerCall))
    → String
    → Option (Option HandlerCall)
lookup h [] name = none
lookup h ((name', bind) ∷ methods) name =
    let later = lookup h methods name in if str_eq name' name then some (bind h) else later

at_rpc : Error → Option RpcError
at_rpc (rpc code message) = some (record { code = code; message = message })
at_rpc _ = none

bound : Handlers → List (String × (Handlers → Option HandlerCall)) → List String
bound h [] = []
bound h ((name, bind) ∷ methods) =
    let later = bound h methods in if is_some (bind h) then name ∷ later else later

-- `methodsResponse`
unfoldable pub methods_response : Handlers → List String
unfolding bound default_methods
methods_response h = bound h default_methods

module _ (error_text : Error → String) (quoted : String → String) where
  rpc_error_or : Error → Option RpcError → RpcError
  rpc_error_or e none = record { code = "internal"; message = error_text e }
  rpc_error_or e (some r) = r

  -- `rpcError`
  unfoldable pub rpc_error : Error → RpcError
  unfolding rpc_error_or at_rpc errors_find
  rpc_error e = rpc_error_or e (errors_find at_rpc e)

  marshalled : ℤ → Result String → Response
  marshalled id (err e) = failure id "internal" (error_text e)
  marshalled id (ok payload) = record { id = id; result = some payload; error = none }

  unfoldable pub answered : ℤ → Result (Result String) → Response
  unfolding marshalled
  answered id (err e) = record { id = id; result = none; error = some (rpc_error e) }
  answered id (ok payload) = marshalled id payload

  -- `call` is what a bound function answers for the parameters: an error, or the result as
  -- json.Marshal has it.
  dispatch :
      Request
      → (HandlerCall → String → Result (Result String))
      → Option (Option HandlerCall)
      → Response
  unfolding answered
  dispatch r call (some (some c)) = answered r.id (call c r.params)
  dispatch r call (some none) =
      failure r.id "unsupported" (str_append r.method " is not supported by this control socket")
  dispatch r call none =
      failure r.id "unknown_method" (str_append "unknown method " (quoted r.method))

  -- `handle`
  unfoldable pub handle :
      Handlers → (HandlerCall → String → Result (Result String)) → Request → Response
  unfolding dispatch lookup default_methods
  handle h call r = dispatch r call (lookup h default_methods r.method)
