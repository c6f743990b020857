-- ===== src/Manifest/Networks/Forwards.antt =====
-- The forwards of a hotplug network.
use virtle.Prelude.{◌≢◌, ℕ, String, ◌≡◌, ◌⊎◌, List, [], ◌∷◌}
use virtle.Prelude.Errors.{ok}
use virtle.Hotplug.Device.{HotplugForward}
use virtle.Manifest.Ports.{parse_port_endpoint}
use virtle.Manifest.Ports.Range.{IsPort}
use virtle.Manifest.Networks.{ForwardPort, NormalizedForwardPort, lowered}

-- A forward of the host that is what its input says: tcp where this names no protocol, and the two ports
-- of its texts.
unfoldable pub IsForward : ForwardPort → NormalizedForwardPort → Type 0
IsForward f n =
    (((f.proto ≡ "") × (n.proto ≡ "tcp"))
      ⊎ (((f.proto ≡ "tcp") ⊎ (f.proto ≡ "udp")) × (n.proto ≡ f.proto)))
    × ((f.from ≡ "") ⊎ (f.from ≡ "host"))
    × (parse_port_endpoint f.host ≡ ok n.host)
    × (parse_port_endpoint f.guest ≡ ok n.guest)
    × IsPort n.host
    × IsPort n.guest

-- The forwards of a device are those of the manifest, one by one, none of which comes from the guest.
unfoldable pub Forwards : (List ℕ → String) → List ForwardPort → List HotplugForward → Type 0
Forwards string [] [] = Unit
Forwards string [] (h ∷ hs) = ⊥
Forwards string (f ∷ fs) [] = ⊥
Forwards string (f ∷ fs) (h ∷ hs) =
    ((n : NormalizedForwardPort) × (IsForward f n × ((n.from ≢ "guest") × (lowered string n ≡ h))))
    × Forwards string fs hs
