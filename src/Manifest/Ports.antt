-- ===== src/Manifest/Ports.antt =====
-- The endpoints of port forwards in internal/manifest/resolve_manifest.go, with what net.SplitHostPort and
-- net.JoinHostPort do. A text is the list of its bytes.
pub mod Endpoints
pub mod Range
use virtle.Prelude.{
  ℕ, ◌+◌, ◌-◌, ltb, leb, ◌==◌, Bool, true, false, not, ◌&&◌, ◌||◌, List, [], ◌∷◌, ◌++◌, Option,
  none, some, if◌then◌else◌,
}
use virtle.Prelude.Int.{ℤ, pos, leb_ℤ, ltb_ℤ}
use virtle.Prelude.Errors.{Error, Result, ok, err, plain}
use virtle.Units.{parse_int, print_int}

pub record PortEndpoint : Type 0 where
  pub address : List ℕ
  pub port : ℤ

unfoldable pub has : ℕ → List ℕ → Bool
has b [] = false
has b (c ∷ s) = c == b || has b s

add_front : ℕ → List ℕ → Option (List ℕ × List ℕ) → Option (List ℕ × List ℕ)
add_front c s none = if c == 58 then some ([], s) else none
add_front c s (some (front, port)) = some (c ∷ front, port)

-- What is before and after the last colon, at `strings.LastIndex(value, ":")`
unfoldable pub at_last_colon : List ℕ → Option (List ℕ × List ℕ)
unfolding add_front
at_last_colon [] = none
at_last_colon (c ∷ s) = add_front c s (at_last_colon s)

add_inner : ℕ → Option (List ℕ) → Option (List ℕ)
add_inner c none = none
add_inner c (some inner) = some (c ∷ inner)

-- A text that ends with its first closing bracket, without it.
unfoldable pub closed : List ℕ → Option (List ℕ)
unfolding add_inner
closed [] = none
closed (c ∷ []) = if c == 93 then some [] else none
closed (c ∷ d ∷ s) = let rest = add_inner c (closed (d ∷ s)) in if c == 93 then none else rest

unless_bracket : List ℕ → Option (List ℕ) → Option (List ℕ)
unless_bracket port none = none
unless_bracket port (some inner) =
    if has 91 inner || (has 91 port || has 93 port) then none else some inner

-- The host that `net.SplitHostPort` finds before the last colon, if it reports no error.
unfoldable pub split_host : List ℕ → List ℕ → Option (List ℕ)
unfolding unless_bracket
split_host [] port = if has 91 port || has 93 port then none else some []
split_host (c ∷ s) port =
    if c == 91
    then unless_bracket port (closed s)
    else if has 58 (c ∷ s) || (has 91 (c ∷ s) || (has 91 port || (has 93 (c ∷ s) || has 93 port)))
    then none
    else some (c ∷ s)

-- The text before the last colon is the host where SplitHostPort reports an error.
or_front : List ℕ → Option (List ℕ) → List ℕ
or_front front none = front
or_front front (some host) = host

with_port : List ℕ → Option ℤ → Result PortEndpoint
with_port host none = err (plain "port must be an integer")
with_port host (some port) =
    if leb_ℤ port (pos 0) || ltb_ℤ (pos 65535) port
    then err (plain "port must be between 1 and 65535")
    else ok (record { address = host; port = port })

at_port : List ℕ → List ℕ → Result PortEndpoint
unfolding with_port
at_port host [] = err (plain "missing port")
at_port host (c ∷ s) = with_port host (parse_int (c ∷ s))

parts : Option (List ℕ × List ℕ) → Result PortEndpoint
unfolding at_port or_front
parts none = err (plain "missing :port")
parts (some (front, port)) = at_port (or_front front (split_host front port)) port

-- `parsePortEndpoint`
unfoldable pub parse_port_endpoint : List ℕ → Result PortEndpoint
unfolding parts
parse_port_endpoint value = parts (at_last_colon value)

-- `formatPortEndpoint`
unfoldable pub format_port_endpoint : PortEndpoint → List ℕ
format_port_endpoint e =
    if has 58 e.address
    then (91 ∷ e.address) ++ (93 ∷ 58 ∷ print_int e.port)
    else e.address ++ (58 ∷ print_int e.port)
