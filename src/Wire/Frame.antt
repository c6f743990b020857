-- ===== src/Wire/Frame.antt =====
-- `frameReader` of backend/qemu/internal/qmpwire/session.go: a reader that refuses long lines. A byte
-- is a number, and the newline is 10. Sizes are int64 in the code: `size` is at most one more than
-- `max`, so nothing overflows.
pub mod Limit
use virtle.Prelude.{
  ℕ, zero, suc, ◌+◌, ◌-◌, ◌==◌, ltb, Bool, true, false, List, [], ◌∷◌, ◌++◌, Option, none, some,
  length, take, if◌then◌else◌,
}
use virtle.Prelude.Int.{ℤ, pos}
use virtle.Prelude.Errors.{Error, exceeded}

pub record FrameReader : Type 0 where
  pub max : ℕ
  pub size : ℕ

-- `limits.Error`
abbrev pub limit_error : ℕ → Error
limit_error max = exceeded "QEMU control frame" (pos max) ""

over_one : ℕ × Option ℕ → ℕ × Option ℕ
over_one (size, none) = (size, none)
over_one (size, some i) = (size, some (suc i))

-- The loop over the bytes that were read: the size after it, and the number of bytes up to the one
-- that is over the limit.
scan : ℕ → ℕ → List ℕ → ℕ × Option ℕ
unfolding over_one
scan max size [] = (size, none)
scan max size (b ∷ bs) =
    let line_end = over_one (scan max 0 bs) in
    let rest = over_one (scan max (suc size) bs) in
    if b == 10 then line_end else if ltb max (suc size) then (suc size, some 1) else rest

-- What a Read did: the bytes that it hands on, its error, the reader after it, and how many bytes it
-- asked for, if any.
pub record ReadDone : Type 0 where
  pub bytes : List ℕ
  pub error : Option Error
  pub reader : FrameReader
  pub asked : Option ℕ

-- What the underlying reader answers when it is asked for a number of bytes.
abbrev pub Source : Type 0
Source = ℕ → List ℕ × Option Error

scanned : FrameReader → ℕ → List ℕ → Option Error → ℕ × Option ℕ → ReadDone
scanned r limit bytes e (size, none) = record {
  bytes = bytes;
  error = e;
  reader = record r { size = size };
  asked = some limit;
}
scanned r limit bytes e (size, some i) = record {
  bytes = take i bytes;
  error = some (limit_error r.max);
  reader = record r { size = size };
  asked = some limit;
}

-- `if int64(len(p)) > remaining+1 { p = p[:remaining+1] }`
room : FrameReader → ℕ → ℕ
room r len = if ltb (r.max - r.size + 1) len then r.max - r.size + 1 else len

-- `frameReader.Read` into a slice of `len` bytes.
unfoldable pub frame_read : FrameReader → Source → ℕ → ReadDone
unfolding scan scanned room
frame_read r source zero = record { bytes = []; error = none; reader = r; asked = none }
frame_read r source (suc len) =
    if ltb r.max r.size
    then record { bytes = []; error = some (limit_error r.max); reader = r; asked = none }
    else (let limit = room r (suc len) in
        let answer = source limit in scanned r limit answer.0 answer.1 (scan r.max r.size answer.0))
