-- ===== src/Executor/LineLogger.antt =====
-- `lineLogger` of internal/executor/executor.go: the output of a command as log records of one line
-- each, of bounded size. A byte is a number; what is logged is kept, the latest record last.
pub mod Pieces
pub mod Bounds
use virtle.Prelude.{
  ℕ, zero, suc, ◌+◌, ◌-◌, ◌==◌, ltb, Bool, true, false, List, [], ◌∷◌, ◌++◌, Option, none, some,
  length, take, drop, if◌then◌else◌,
}

abbrev pub max_log_line : ℕ
max_log_line = 32768

pub record LineLogger : Type 0 where
  pub buffer : List ℕ
  pub logged : List (List ℕ)

-- `bytes.TrimSuffix(line, "\r")`
unfoldable pub trim_cr : List ℕ → List ℕ
trim_cr [] = []
trim_cr (b ∷ []) = if b == 13 then [] else b ∷ []
trim_cr (b ∷ c ∷ bs) = b ∷ trim_cr (c ∷ bs)

-- `flush`
flush_line : LineLogger → List ℕ → LineLogger
flush_line w [] = w
flush_line w (b ∷ bs) = record { buffer = []; logged = w.logged ++ trim_cr (b ∷ bs) ∷ [] }

unfoldable pub flush : LineLogger → LineLogger
unfolding flush_line
flush w = flush_line w w.buffer

-- What stands before the first newline, and what stands after it if there is one.
cons_line : ℕ → List ℕ × Option (List ℕ) → List ℕ × Option (List ℕ)
cons_line b (line, rest) = (b ∷ line, rest)

cut_line : List ℕ → List ℕ × Option (List ℕ)
unfolding cons_line
cut_line [] = ([], none)
cut_line (b ∷ p) = let more = cons_line b (cut_line p) in if b == 10 then ([], some p) else more

-- The length of the line is a parameter, so that a test need not write 32768 bytes.
module _ (max : ℕ) where
  -- `if len(w.buffer) == maxLogLine { w.flush() }`
  pub flush_full : LineLogger → LineLogger
  flush_full w = if length w.buffer == max then flush w else w

  -- One round of the loop of `append`, with `available` bytes of room.
  append_chunk : LineLogger → ℕ → List ℕ → LineLogger
  append_chunk w available p = flush_full (record w { buffer = w.buffer ++ take available p })

  room : LineLogger → ℕ
  room w = if max - length w.buffer == 0 then max else max - length w.buffer

  make_room : LineLogger → LineLogger
  make_room w = if max - length w.buffer == 0 then flush w else w

  -- `append` for a number of rounds; each takes a byte at least, where `max` is positive.
  append_loop : ℕ → LineLogger → List ℕ → LineLogger
  unfolding append_chunk flush_full room make_room
  append_loop zero w p = w
  append_loop (suc rounds) w [] = w
  append_loop (suc rounds) w (b ∷ p) =
      let available = if ltb (length (b ∷ p)) (room w) then length (b ∷ p) else room w in
      append_loop rounds (append_chunk (make_room w) available (b ∷ p)) (drop available (b ∷ p))

  unfoldable pub append : LineLogger → List ℕ → LineLogger
  unfolding append_loop
  append w p = append_loop (length p) w p

  finish_line :
      LineLogger → List ℕ × Option (List ℕ) → (LineLogger → List ℕ → LineLogger) → LineLogger
  finish_line w (line, none) go_on = append w line
  finish_line w (line, some rest) go_on = go_on (flush (append w line)) rest

  -- `Write` for a number of lines.
  write_loop : ℕ → LineLogger → List ℕ → LineLogger
  unfolding finish_line
  write_loop zero w p = w
  write_loop (suc rounds) w [] = w
  write_loop (suc rounds) w (b ∷ p) =
      finish_line w (cut_line (b ∷ p)) (λ w' rest. write_loop rounds w' rest)

  unfoldable pub write : LineLogger → List ℕ → LineLogger
  unfolding write_loop cut_line
  write w p = write_loop (length p) w p

-- `close`
unfoldable pub close : LineLogger → LineLogger
close w = flush w

abbrev pub new_line_logger : LineLogger
new_line_logger = record { buffer = []; logged = [] }
