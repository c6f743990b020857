-- ===== src/Units/Tests.antt =====
-- The theorem on sizes at a concrete input.
use virtle.Prelude.{◌≡◌, arith}
use virtle.Prelude.Int.{negsuc}
use virtle.Units.{to_string, parse_bytes, size}
use virtle.Units.Roundtrip.{parse_bytes-to_string}

-- -1536 bytes.
parse_bytes-to_string_example : parse_bytes (to_string (negsuc 1535)) ≡ size (negsuc 1535)
parse_bytes-to_string_example = parse_bytes-to_string (negsuc 1535) (omega arith, omega arith)
