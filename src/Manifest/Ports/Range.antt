-- ===== src/Manifest/Ports/Range.antt =====
-- The port of an endpoint that was parsed.
use virtle.Prelude.{ℕ, ◌≡◌, List, [], ◌∷◌, Option, none, some, arith}
use virtle.Prelude.Int.{ℤ, pos, ◌≤ℤ◌}
use virtle.Prelude.Errors.{ok}
use virtle.Units.{parse_int}
use virtle.Manifest.Ports.{
  PortEndpoint, with_port, at_port, parts, or_front, split_host, at_last_colon, parse_port_endpoint,
}

abbrev pub IsPort : PortEndpoint → Type 0
IsPort e = (pos 1 ≤ℤ e.port) × (e.port ≤ℤ pos 65535)

with_port-IsPort : (h : List ℕ) (p : Option ℤ) (e : PortEndpoint) → with_port h p ≡ ok e → IsPort e
unfolding with_port
with_port-IsPort h none e q = absurd (ground arith)
with_port-IsPort h (some p) e q = ground arith

at_port-IsPort : (h s : List ℕ) (e : PortEndpoint) → at_port h s ≡ ok e → IsPort e
unfolding at_port
at_port-IsPort h [] e q = absurd (ground arith)
at_port-IsPort h (c ∷ s) e q = with_port-IsPort h (parse_int (c ∷ s)) e q

parts-IsPort : (o : Option (List ℕ × List ℕ)) (e : PortEndpoint) → parts o ≡ ok e → IsPort e
unfolding parts
parts-IsPort none e q = absurd (ground arith)
parts-IsPort (some (front, port)) e q =
    at_port-IsPort (or_front front (split_host front port)) port e q

pub parse-IsPort : (s : List ℕ) (e : PortEndpoint) → parse_port_endpoint s ≡ ok e → IsPort e
unfolding parse_port_endpoint
parse-IsPort s e q = parts-IsPort (at_last_colon s) e q
