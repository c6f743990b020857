-- ===== src/Control/Server/Requests.antt =====
-- The limit of a request (`decodeRequest`, `handleConn`).
use virtle.Prelude.{ℕ, ◌≤◌, String, true, ◌≡◌, refl, Option, none, some, arith}
use virtle.Prelude.Int.{ℤ}
use virtle.Prelude.Errors.{Error, Result, ok, err}
use virtle.Control.Router.{Request, Response}
use virtle.Control.Server.{
  Connection, handle_conn, begun, decoded, decode_request, effective_max_request_size,
}

decode_lem :
    (max : ℕ) (d : Result ℕ) (left : ℕ)
    → decode_request max d left ≡ none
    → (offset : ℕ) × (d ≡ ok offset) × (offset ≤ max)
unfolding decode_request
decode_lem max (ok offset) left e = (offset, refl, ground arith)
decode_lem max (err f) left e = absurd (ground arith)

module _ (error_text : Error → String) (handle : Request → Response) where
  decoded_lem :
      (c : Connection) (e : Option Error) → (decoded error_text handle c e).asked ≡ true → e ≡ none
  unfolding decoded
  decoded_lem c none a = refl
  decoded_lem c (some f) a = absurd (ground arith)

  begun_lem :
      (max : ℕ) (c : Connection) (e : Option Error)
      → (begun error_text handle max c e).asked ≡ true
      → (offset : ℕ) × (c.decoded ≡ ok offset) × (offset ≤ max)
  unfolding begun
  begun_lem max c none a =
      decode_lem max c.decoded c.left (decoded_lem c (decode_request max c.decoded c.left) a)
  begun_lem max c (some f) a = absurd (ground arith)

  -- The router is asked only for a request that was decoded within the limit.
  handle_conn_limits :
      (configured : ℤ) (c : Connection)
      → (handle_conn error_text handle configured c).asked ≡ true
      → (offset : ℕ) × (c.decoded ≡ ok offset) × (offset ≤ effective_max_request_size configured)
  unfolding handle_conn
  handle_conn_limits configured c a =
      begun_lem (effective_max_request_size configured) c c.deadline_error a
