-- ===== src/Manifest/NetworkTests.antt =====
-- The theorems on networks at concrete inputs.
use virtle.Units.{parse_int, at_most, value, value_from, print_int, digits, digits_from}
use virtle.Prelude.{false, ℕ, String, ◌≡◌, refl, [], ◌∷◌, List, arith}
use Prim.Native.String.{◌++◌ as str_append}
use virtle.Prelude.Int.{pos}
use virtle.Prelude.Errors.{ok}
use virtle.Prelude.Decimal.{decimal}
use virtle.Hotplug.Device.{HotplugDevice, net}
use virtle.Manifest.Ports.{
  at_last_colon, split_host, has, parse_port_endpoint, format_port_endpoint,
}
use virtle.Manifest.Ports.Endpoints.{parse_port_endpoint-format}
use virtle.Manifest.Networks.{
  resolve_forwards, normalize_forward_port, NetworkInput, resolve_network_hotplug,
}
use virtle.Manifest.Networks.Forwards.{Forwards}

-- ::1 and port 8080.
parse_port_endpoint-format_example :
    parse_port_endpoint
      (format_port_endpoint (record { address = 58 ∷ 58 ∷ 49 ∷ []; port = pos 8080 }))
    ≡ ok (record { address = 58 ∷ 58 ∷ 49 ∷ []; port = pos 8080 })
unfolding has
parse_port_endpoint-format_example =
    parse_port_endpoint-format (58 ∷ 58 ∷ 49 ∷ []) 8080 refl refl (omega arith) (omega arith)

-- The codes of a text, one after another.
abbrev codes : List ℕ → String
codes [] = ""
codes (c ∷ s) = str_append (decimal c) (codes s)

-- A forward from :80 of the host to :8 of the guest.
abbrev entry : NetworkInput
entry = record {
  id = "";
  kind = "";
  mac = "";
  forward = record { proto = ""; from = ""; host = 58 ∷ 56 ∷ 48 ∷ []; guest = 58 ∷ 56 ∷ [] } ∷ [];
}

abbrev device : HotplugDevice
device = record {
  kind = net;
  id = "net0";
  virtiofs = record { source = ""; target = ""; socket_path = ""; bin = ""; args = [] };
  net = record {
    backend = "user";
    mac = "02:02:00:00:00:01";
    forward = record { proto = "tcp"; host = "585648"; guest = "5856" } ∷ [];
  };
  block = record { image_path = ""; format = ""; read_only = false; serial = "" };
}

resolved : resolve_network_hotplug codes entry 0 ≡ ok device
unfolding resolve_network_hotplug resolve_forwards normalize_forward_port parse_port_endpoint
    at_last_colon parse_int at_most value value_from decimal format_port_endpoint has split_host
    print_int digits digits_from
resolved = refl
