-- ===== src/Manifest/Networks.antt =====
-- The networks of a manifest in internal/manifest/resolve_manifest.go: normalizeForwardPort and the hotplug
-- networks. An endpoint is a list of bytes, of which `string` makes a text.
pub mod Options
pub mod Forwards
use virtle.Prelude.{
  ℕ, suc, ◌+◌, ◌*◌, ltb, Bool, true, false, not, ◌&&◌, ◌||◌, String, str_eq, List, [], ◌∷◌, Option,
  none, some, if◌then◌else◌,
}
use Prim.Native.String.{◌++◌ as str_append}
use virtle.Prelude.Int.{ℤ, pos, ◌+ℤ◌, ◌*ℤ◌, ltb_ℤ, wrap64}
use virtle.Prelude.Decimal.{decimal}
use virtle.Prelude.Errors.{Error, Result, ok, err, errorf, wrapf, plain, str, num, text, end}
use virtle.Hotplug.Device.{HotplugDevice, HotplugForward, net}
use virtle.Manifest.Checked.{Checked, passed, refused, panicked}
use virtle.Manifest.Devices.{validate_hotplug}
use virtle.Manifest.Ports.{PortEndpoint, parse_port_endpoint, format_port_endpoint}

pub record ForwardPort : Type 0 where
  pub proto : String
  pub from : String
  pub host : List ℕ
  pub guest : List ℕ

pub record NetworkInput : Type 0 where
  pub id : String
  pub kind : String
  pub mac : String
  pub forward : List ForwardPort

pub record NormalizedForwardPort : Type 0 where
  pub proto : String
  pub from : String
  pub host : PortEndpoint
  pub guest : PortEndpoint

abbrev pub or_text : String → String → String
or_text s d = if str_eq s "" then d else s

with_guest :
    String → String → String → PortEndpoint → Result PortEndpoint → Result NormalizedForwardPort
with_guest path proto from host (err e) = err (errorf "%s.guest %s" (str path (text e end)))
with_guest path proto from host (ok guest) =
    ok (record { proto = proto; from = from; host = host; guest = guest })

with_host :
    String
    → String
    → String
    → Result PortEndpoint
    → Result PortEndpoint
    → Result NormalizedForwardPort
unfolding with_guest
with_host path proto from (err e) guest = err (errorf "%s.host %s" (str path (text e end)))
with_host path proto from (ok host) guest = with_guest path proto from host guest

-- `normalizeForwardPort`
unfoldable pub normalize_forward_port : ForwardPort → String → Result NormalizedForwardPort
unfolding with_host
normalize_forward_port port path =
    let proto = or_text port.proto "tcp" in
    let from = or_text port.from "host" in
    if not (str_eq proto "tcp") && not (str_eq proto "udp")
    then err (errorf "%s.proto must be one of tcp or udp" (str path end))
    else if not (str_eq from "host") && not (str_eq from "guest")
    then err (errorf "%s.from must be one of host or guest" (str path end))
    else with_host path proto from (parse_port_endpoint port.host) (parse_port_endpoint port.guest)

-- fmt.Sprintf("forward[%d]", i)
abbrev pub forward_path : ℕ → String
forward_path i = str_append "forward[" (str_append (decimal i) "]")

abbrev pub forward_in_network : ℕ → ℕ → String
forward_in_network index i =
    str_append "manifest.networks[" (str_append (decimal index) (str_append "]." (forward_path i)))

module _ (string : List ℕ → String) where
  abbrev pub lowered : NormalizedForwardPort → HotplugForward
  lowered n = record {
    proto = n.proto;
    host = string (format_port_endpoint n.host);
    guest = string (format_port_endpoint n.guest);
  }

  and_more : HotplugForward → Result (List HotplugForward) → Result (List HotplugForward)
  and_more f (err e) = err e
  and_more f (ok fs) = ok (f ∷ fs)

  one_forward :
      ℕ → Result NormalizedForwardPort → Result (List HotplugForward) → Result (List HotplugForward)
  unfolding and_more
  one_forward i (err e) rest = err e
  one_forward i (ok n) rest =
      if str_eq n.from "guest"
      then err
          (errorf "forward[%d].from guest is not supported for hotplug networks" (num (pos i) end))
      else and_more (lowered n) rest

  -- The loop of `resolveNetworkHotplug`
  unfoldable pub resolve_forwards : ℕ → List ForwardPort → Result (List HotplugForward)
  unfolding one_forward
  resolve_forwards i [] = ok []
  resolve_forwards i (f ∷ fs) =
      one_forward i (normalize_forward_port f (forward_path i)) (resolve_forwards (suc i) fs)

  network_device : NetworkInput → ℕ → Result (List HotplugForward) → Result HotplugDevice
  network_device entry index (err e) = err e
  network_device entry index (ok forward) = ok (record {
    kind = net;
    id = or_text entry.id (str_append "net" (decimal index));
    virtiofs = record { source = ""; target = ""; socket_path = ""; bin = ""; args = [] };
    net = record {
      backend = or_text entry.kind "user";
      mac = or_text entry.mac "02:02:00:00:00:01";
      forward = forward;
    };
    block = record { image_path = ""; format = ""; read_only = false; serial = "" };
  })

  -- `resolveNetworkHotplug`
  unfoldable pub resolve_network_hotplug : NetworkInput → ℕ → Result HotplugDevice
  unfolding network_device
  resolve_network_hotplug entry index =
      network_device entry index (resolve_forwards 0 entry.forward)

  -- What validateHotplug answers of a device; it does not panic.
  validated : HotplugDevice → Checked → Result HotplugDevice
  validated d passed = ok d
  validated d (refused e) = err e
  validated d panicked = err (plain "")

  lowered_network : Result HotplugDevice → Result HotplugDevice
  unfolding validated
  lowered_network (err e) = err e
  lowered_network (ok d) = validated d (validate_hotplug "hotplug" d)

  -- `ResolveHotplugNetwork`
  unfoldable pub resolve_hotplug_network : NetworkInput → Result HotplugDevice
  unfolding lowered_network
  resolve_hotplug_network entry = lowered_network (resolve_network_hotplug entry 0)
