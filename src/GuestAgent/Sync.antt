-- ===== src/GuestAgent/Sync.antt =====
-- `synchronize` and `readDelimited` of backend/qemu/internal/qga/qga.go. A stream is the bytes that
-- arrive, as numbers, and the error that ReadByte returns after them. Sizes are int64 in the code; they
-- stay below the limit.
pub mod Stale
use virtle.Prelude.{
  ℕ, zero, suc, ◌+◌, ◌==◌, leb, Bool, true, false, List, [], ◌∷◌, Option, none, some, length,
  if◌then◌else◌,
}
use virtle.Prelude.Int.{ℤ, pos, eq_ℤ}
use virtle.Prelude.Errors.{Error, Result, ok, err, wire_error}
use virtle.Wire.Frame.{limit_error}

-- `result = append(result, b)` in front of what follows.
keep : Bool → ℕ → Result (List ℕ × List ℕ) → Result (List ℕ × List ℕ)
keep retain b (err e) = err e
keep retain b (ok (segment, rest)) = ok ((if retain then b ∷ segment else segment), rest)

-- The loop of `readDelimited`, after `size` bytes: the segment, and the bytes after the delimiter.
read_loop : Error → ℕ → ℕ → Bool → ℕ → List ℕ → Result (List ℕ × List ℕ)
unfolding keep
read_loop end_error delimiter limit retain size [] = err end_error
read_loop end_error delimiter limit retain size (b ∷ bytes) =
    let later = keep retain b (read_loop end_error delimiter limit retain (suc size) bytes) in
    if b == delimiter
    then ok ([], bytes)
    else if leb limit size
    then err (limit_error limit)
    else later

-- `readDelimited`
unfoldable pub read_delimited : Error → ℕ → ℕ → Bool → List ℕ → Result (List ℕ × List ℕ)
unfolding read_loop
read_delimited end_error delimiter limit retain bytes =
    read_loop end_error delimiter limit retain 0 bytes

-- 0x564952544c45, "VIRTLE"
abbrev pub sync_id : ℤ
sync_id = pos 94872913857605

abbrev is_sync : Option ℤ → Bool
is_sync none = false
is_sync (some returned) = eq_ℤ returned sync_id

-- What the two calls of json.Unmarshal make of a line: the number that its envelope returns, if the line
-- is an envelope and returns a number.
module _ (returned : List ℕ → Option ℤ) (end_error : Error) (limit : ℕ) where
  checked : Result (List ℕ × List ℕ) → (List ℕ → Result (List ℕ)) → Result (List ℕ)
  checked (err e) go_on = err (wire_error e)
  checked (ok (line, rest)) go_on =
      let later = go_on rest in if is_sync (returned line) then ok rest else later

  scanned : Result (List ℕ × List ℕ) → (List ℕ → Result (List ℕ)) → Result (List ℕ)
  unfolding checked
  scanned (err e) go_on = err (wire_error e)
  scanned (ok (noise, rest)) go_on = checked (read_delimited end_error 10 limit true rest) go_on

  -- The loop of `synchronize` for a number of rounds; each takes a byte at least.
  sync_loop : ℕ → List ℕ → Result (List ℕ)
  unfolding scanned
  sync_loop zero bytes = err (wire_error end_error)
  sync_loop (suc rounds) bytes =
      scanned (read_delimited end_error 255 limit false bytes) (λ rest. sync_loop rounds rest)

  -- `synchronize` after its write: the bytes that are left for the decoder.
  unfoldable pub synchronize : List ℕ → Result (List ℕ)
  unfolding sync_loop
  synchronize bytes = sync_loop (suc (length bytes)) bytes
