-- ===== src/Wire/Tests.antt =====
-- The wire theorems at concrete inputs.
use virtle.Prelude.{◌≡◌, ◌≢◌, ◌↔◌, refl, true, false, [], ◌∷◌, none, some, arith}
use virtle.Prelude.Errors.{ok, plain, wire_error}
use virtle.Wire.Dial.{Attempt, dialed, closed, Retry, Dialed, dial_with_retry}
use virtle.Wire.Dial.Clients.{open_after, dial_with_retry_closes}
use virtle.Wire.Frame.{FrameReader, Source, frame_read, limit_error}
use virtle.Wire.Session.{Operation, session_do}
use virtle.Wire.Session.Trust.{IsLoss, session_do_breaks}

-- At most four bytes a line, of which two were read.
abbrev short_lines : FrameReader
short_lines = record { max = 4; size = 2 }

-- Three letters and no newline.
abbrev letters : Source
letters n = (97 ∷ 98 ∷ 99 ∷ [], none)

refuses_third : (frame_read short_lines letters 16).error ≡ some (limit_error 4)
unfolding frame_read
refuses_third = refl

abbrev long_line : FrameReader
long_line = record { max = 4; size = 5 }

-- A line of three bytes, and the first byte of another.
abbrev lines : Source
lines n = (97 ∷ 98 ∷ 99 ∷ 10 ∷ 100 ∷ [], none)

abbrev fresh_reader : FrameReader
fresh_reader = record { max = 4; size = 0 }

accepted : (frame_read fresh_reader lines 16).error ≢ some (limit_error 4)
unfolding frame_read
accepted = ground arith

-- The context ends while the reply is awaited.
abbrev cut_short : Operation
cut_short = record {
  ended = none;
  can_end = true;
  deadline_error = none;
  fn_error = some (wire_error (plain "i/o timeout"));
  ended_meanwhile = true;
}

session_do_breaks_example :
    ((session_do none cut_short).broken_by ≡ some (wire_error (plain "i/o timeout")))
    ↔ IsLoss cut_short (wire_error (plain "i/o timeout"))
session_do_breaks_example = session_do_breaks cut_short (wire_error (plain "i/o timeout"))

-- The first client fails its probe, and the second is returned.
abbrev fails_probe : Attempt
fails_probe = record {
  ended = none;
  check_error = none;
  client = ok 1;
  probe_error = some (plain "no greeting");
  ended_after = none;
}

abbrev succeeds : Attempt
succeeds = record fails_probe { client = ok 2; probe_error = none }

abbrev retry : Retry
retry = record { has_check = false; has_probe = true; has_close = true }

abbrev dialed_both : Dialed
dialed_both = record { result = ok 2; actions = dialed 1 ∷ closed 1 ∷ dialed 2 ∷ [] }

dials : dial_with_retry retry (fails_probe ∷ succeeds ∷ []) ≡ some dialed_both
unfolding dial_with_retry
dials = refl

dial_with_retry_closes_example : open_after none dialed_both.actions ≡ some (some 2)
dial_with_retry_closes_example =
    dial_with_retry_closes retry refl (fails_probe ∷ succeeds ∷ []) dialed_both dials
