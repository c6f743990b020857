-- ===== src/Readiness.antt =====
-- internal/readiness/readiness.go: the token that a guest writes when it is ready. A text is the list of
-- its bytes, of which the white space of ASCII is trimmed.
pub mod Token
mod Tests
use virtle.Prelude.{
  ℕ, ◌+◌, ltb, leb, ◌==◌, Bool, true, false, not, ◌&&◌, ◌||◌, List, [], ◌∷◌, ◌++◌, length, take,
  Option, none, some, if◌then◌else◌,
}
use virtle.Prelude.Errors.{Error}

abbrev pub token_limit : ℕ
token_limit = 64

-- Tab to carriage return, and the space.
unfoldable pub is_space : ℕ → Bool
is_space c = (leb 9 c && leb c 13) || c == 32

unfoldable pub trim_left : List ℕ → List ℕ
trim_left [] = []
trim_left (c ∷ s) = let rest = trim_left s in if is_space c then rest else c ∷ s

unfoldable pub is_empty : List ℕ → Bool
is_empty [] = true
is_empty (c ∷ s) = false

unfoldable pub trim_right : List ℕ → List ℕ
trim_right [] = []
trim_right (c ∷ s) = let rest = trim_right s in if is_space c && is_empty rest then [] else c ∷ rest

-- `strings.TrimSpace`
unfoldable pub trim_space : List ℕ → List ℕ
trim_space s = trim_right (trim_left s)

-- `strings.HasPrefix` of a text and a prefix
unfoldable pub has_prefix : List ℕ → List ℕ → Bool
has_prefix s [] = true
has_prefix [] (p ∷ ps) = false
has_prefix (c ∷ s) (p ∷ ps) = c == p && has_prefix s ps

unfoldable pub same : List ℕ → List ℕ → Bool
same [] [] = true
same [] (p ∷ ps) = false
same (c ∷ s) [] = false
same (c ∷ s) (p ∷ ps) = c == p && same s ps

-- "..."
abbrev dots : List ℕ
dots = 46 ∷ 46 ∷ 46 ∷ []

-- `TruncateToken`
unfoldable pub truncate_token : List ℕ → List ℕ
truncate_token token =
    if leb (length token) token_limit then token else take token_limit token ++ dots

-- The errors, and what a read of the reader returns besides its bytes.
pub data TokenError : Type 0 where
  unexpected : List ℕ → TokenError
  unread : Error → TokenError

pub data ReadError : Type 0 where
  eof : ReadError
  failed : Error → ReadError

pub record Read : Type 0 where
  pub bytes : List ℕ
  pub error : Option ReadError

-- What the loop returns of the data that it has: none is to read on.
unfoldable pub examine : List ℕ → List ℕ → Option (Option TokenError)
unfolding trim_space truncate_token
examine expected bytes =
    let token = trim_space bytes in
    if same token expected
    then some none
    else if not (is_empty token) && not (has_prefix expected token)
    then some (some (unexpected (truncate_token token)))
    else if ltb token_limit (length bytes)
    then some (some (unexpected (truncate_token token)))
    else none

-- The end of a read: its error, if it has one.
unfoldable pub after_read : List ℕ → Option ReadError → Option (Option TokenError)
unfolding trim_space truncate_token
after_read bytes none = none
after_read bytes (some eof) = some (some (unexpected (truncate_token (trim_space bytes))))
after_read bytes (some (failed e)) = some (some (unread e))

-- A round of the loop.
unfoldable pub examine_read : List ℕ → List ℕ → Read → Option (Option TokenError)
examine_read expected bytes r =
    if is_empty r.bytes
    then after_read bytes r.error
    else elim (examine expected (bytes ++ r.bytes)) [
      | some answer ↦ some answer
      | none ↦ after_read (bytes ++ r.bytes) r.error
    ]

or_later : Option (Option TokenError) → Option (Option TokenError) → Option (Option TokenError)
or_later (some answer) later = some answer
or_later none later = later

unfoldable pub read_loop : List ℕ → List ℕ → List Read → Option (Option TokenError)
unfolding or_later
read_loop expected bytes [] = none
read_loop expected bytes (r ∷ reads) =
    or_later (examine_read expected bytes r) (read_loop expected (bytes ++ r.bytes) reads)

-- `ReadToken`; none is that it waits for another read.
unfoldable pub read_token : List ℕ → List Read → Option (Option TokenError)
read_token expected reads = read_loop expected [] reads
