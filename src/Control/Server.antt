-- ===== src/Control/Server.antt =====
-- internal/control/server.go: how the server answers a connection, and how many it answers at once.
-- What the decoder and the connection answer are arguments. Each call of Serve makes its own slots; a
-- server is served once, and its state has the slots of that one call.
pub mod Slots
pub mod Requests
use virtle.Prelude.{
  ℕ, suc, ◌+◌, ◌==◌, ltb, Bool, true, false, List, [], ◌∷◌, Option, none, some, String,
  if◌then◌else◌, ◌≡◌,
}
use virtle.Prelude.Int.{ℤ, pos, leb_ℤ, pos_part}
use virtle.Prelude.Errors.{Error, Result, ok, err, exceeded, errors_find}
use virtle.Control.Router.{Request, Response, failure}

-- `limits.DefaultMaxHandlers` and `limits.DefaultMaxRequestSize`
abbrev pub default_max_handlers : ℕ
default_max_handlers = 64

abbrev pub default_max_request_size : ℕ
default_max_request_size = 16777216

-- The size of the channel of handler slots.
unfoldable pub max_handlers : ℤ → ℕ
max_handlers configured =
    if leb_ℤ configured (pos 0) then default_max_handlers else pos_part configured

-- `effectiveMaxRequestSize`
unfoldable pub effective_max_request_size : ℤ → ℕ
effective_max_request_size configured =
    if leb_ℤ configured (pos 0) then default_max_request_size else pos_part configured

-- `decodeRequest`: given the decoder's offset after the request, or its error, and what the limited
-- reader has left of the limit and one byte.
unfoldable pub decode_request : ℕ → Result ℕ → ℕ → Option Error
decode_request max (ok offset) left =
    if ltb max offset then some (exceeded "control request" (pos max) "") else none
decode_request max (err e) left =
    if left == 0 then some (exceeded "control request" (pos max) "") else some e

at_exceeded : Error → Option Bool
at_exceeded (exceeded resource limit unit) = some true
at_exceeded _ = none

code_of : Option Bool → String
code_of none = "invalid_request"
code_of (some b) = "resource_limit"

-- A connection: the errors of setting and of clearing the deadline, the decoder and its reader.
pub record Connection : Type 0 where
  pub deadline_error : Option Error
  pub decoded : Result ℕ
  pub left : ℕ
  pub request : Request
  pub clear_error : Option Error

-- The response that is written, and whether the router was asked.
pub record Handled : Type 0 where
  pub response : Response
  pub asked : Bool

module _ (error_text : Error → String) (handle : Request → Response) where
  abbrev internal : Error → Handled
  internal e = record { response = failure (pos 0) "internal" (error_text e); asked = false }

  cleared : Connection → Option Error → Handled
  cleared c none = record { response = handle c.request; asked = true }
  cleared c (some e) = internal e

  decoded : Connection → Option Error → Handled
  unfolding cleared code_of at_exceeded errors_find
  decoded c none = cleared c c.clear_error
  decoded c (some e) = record {
    response = failure (pos 0) (code_of (errors_find at_exceeded e)) (error_text e);
    asked = false;
  }

  begun : ℕ → Connection → Option Error → Handled
  unfolding decoded
  begun max c none = decoded c (decode_request max c.decoded c.left)
  begun max c (some e) = internal e

  -- `handleConn`
  unfoldable pub handle_conn : ℤ → Connection → Handled
  unfolding begun
  handle_conn configured c = begun (effective_max_request_size configured) c c.deadline_error

-- The server: `closed`, whether `Serve` accepts connections, and the numbers of connections that it
-- has accepted, that hold a slot, that are being rejected, and that are done.
pub record State : Type 0 where
  pub closed : Bool
  pub serving : Bool
  pub accepted : ℕ
  pub active : ℕ
  pub rejecting : ℕ
  pub done : ℕ

abbrev pub new_server : State
new_server = record {
  closed = false;
  serving = false;
  accepted = 0;
  active = 0;
  rejecting = 0;
  done = 0;
}

-- The beginning of `Serve`.
unfoldable pub serve : State → State
serve s = if s.closed then s else record s { serving = true }

-- A round of the loop of `Serve` with a connection: the select on the slots.
unfoldable pub accept : ℕ → State → State
accept max s =
    if ltb s.active max
    then record s { accepted = suc s.accepted; active = suc s.active }
    else record s { accepted = suc s.accepted; rejecting = suc s.rejecting }

-- `Close`; the error that Accept then returns ends the loop.
unfoldable pub close : State → State
close s = record s { closed = true; serving = false }

-- What happens to a server, in any order.
pub data Step (max : ℕ) : State → State → Type 0 where
  served : (s : State) → Step max s (serve s)
  connected : (s : State) → s.serving ≡ true → Step max s (accept max s)
  handled :
      (s : State) (n : ℕ)
      → s.active ≡ suc n
      → Step max s (record s { active = n; done = suc s.done })
  rejected :
      (s : State) (n : ℕ)
      → s.rejecting ≡ suc n
      → Step max s (record s { rejecting = n; done = suc s.done })
  stopped : (s : State) → Step max s (close s)

pub data Reach (max : ℕ) (s : State) : State → Type 0 where
  here : Reach max s s
  next : {t u : State} → Reach max s t → Step max t u → Reach max s u
