-- ===== src/Control/Tests.antt =====
-- The theorems on the control socket at concrete inputs.
use virtle.Prelude.{◌⊎◌, ◌↔◌, ◌≢◌, if◌then◌else◌, String, true, false, ◌≡◌, refl, none, In}
use virtle.Prelude.Int.{pos}
use virtle.Prelude.Errors.{Error, Result, ok}
use virtle.Control.Router.{
  Handlers, HandlerCall, failure, Request, methods_response, handle, answered,
}
use virtle.Control.Router.Methods.{handle_dispatches, serves, given}
use virtle.Control.Server.{
  decode_request, State, new_server, serve, accept, served, connected, Reach, here, next,
  Connection, handle_conn, effective_max_request_size,
}
use virtle.Control.Server.Slots.{server-IsBounded, IsBounded}

abbrev handlers : Handlers
handlers = record {
  core = true;
  kill = true;
  shutdown = false;
  guest = true;
  suspend = false;
  hotplug = false;
  balloon = false;
}

abbrev error_text : Error → String
error_text e = "error"

abbrev quoted : String → String
quoted s = s

abbrev call : HandlerCall → String → Result (Result String)
call c params = ok (ok "{}")

abbrev guest_ps_request : Request
guest_ps_request = record { id = pos 7; method = "guest-ps"; params = "" }

handle_dispatches_example :
    ((c : HandlerCall) × ("guest-ps" ≡ serves c)
      × (handle error_text quoted handlers call guest_ps_request ≡ (
          if given handlers c
          then answered error_text quoted (pos 7) (call c "")
          else failure (pos 7) "unsupported" "guest-ps is not supported by this control socket"))
      × ((given handlers c ≡ true) ↔ In "guest-ps" (methods_response handlers)))
    ⊎ (((c : HandlerCall) → "guest-ps" ≢ serves c)
        × (handle error_text quoted handlers call guest_ps_request
            ≡ failure (pos 7) "unknown_method" "unknown method guest-ps"))
handle_dispatches_example = handle_dispatches error_text quoted handlers call guest_ps_request

-- One slot: the second connection is rejected.
abbrev busy : State
busy = record { closed = false; serving = true; accepted = 2; active = 1; rejecting = 1; done = 0 }

busy_reached : Reach 1 new_server busy
unfolding serve accept
busy_reached =
    next (next (next here (served new_server)) (connected (serve new_server) refl))
      (connected (accept 1 (serve new_server)) refl)

server-IsBounded_example : IsBounded 1 busy
server-IsBounded_example = server-IsBounded 1 busy busy_reached

abbrev connection : Connection
connection = record {
  deadline_error = none;
  decoded = ok 40;
  left = 0;
  request = guest_ps_request;
  clear_error = none;
}

asked :
    (handle_conn error_text (handle error_text quoted handlers call) (pos 64) connection).asked
    ≡ true
unfolding handle_conn effective_max_request_size decode_request
asked = refl
