-- ===== src/Manifest/Networks/Options.antt =====
-- The network devices of QEMU in internal/manifest/resolve_manifest.go: resolveForwardPorts and
-- resolveNetwork. What the templates and shellquote make of the command of a tunnel is a parameter.
use virtle.Prelude.{
  ℕ, suc, Bool, not, ◌&&◌, ◌||◌, String, str_eq, List, [], ◌∷◌, Option, none, some, if◌then◌else◌,
}
use virtle.Prelude.Int.{ℤ, pos, ◌+ℤ◌, ◌*ℤ◌, ltb_ℤ, wrap64}
use virtle.Prelude.Errors.{Error, Result, ok, err, errorf, wrapf, num, end}
use virtle.Manifest.Ports.{PortEndpoint}
use virtle.Manifest.Networks.{
  ForwardPort, NetworkInput, NormalizedForwardPort, or_text, normalize_forward_port,
  forward_in_network,
}

-- An option of a network device, before fmt prints it.
pub data NetdevOption : Type 0 where
  host_forward : String → PortEndpoint → PortEndpoint → NetdevOption
  guest_forward : String → PortEndpoint → String → NetdevOption

-- `QEMUNetDevice`
pub record NetDevice : Type 0 where
  pub id : String
  pub backend : String
  pub mac_address : String
  pub transport : String
  pub disable_rom : Bool
  pub netdev_options : List NetdevOption
  pub mq_vectors : ℤ

-- What the host and the machine give to each device.
pub record Surroundings : Type 0 where
  pub exec : List String
  pub system : String
  pub transport : String
  pub cpus : Option ℤ

-- `rejectLegacyFwdTunnelExecEnv`
unfoldable pub reject_legacy_env : ℕ → List String → Option Error
reject_legacy_env i [] = none
reject_legacy_env i (arg ∷ exec) =
    let rest = reject_legacy_env (suc i) exec in
    if str_eq arg "$HOST"
    then some (errorf "exec[%d] uses legacy $HOST; use {{.Host}}" (num (pos i) end))
    else if str_eq arg "$PORT"
    then some (errorf "exec[%d] uses legacy $PORT; use {{.Port}}" (num (pos i) end))
    else rest

-- The command of a tunnel, where the manifest has none.
unfoldable pub tunnel_exec : List String → List String
tunnel_exec [] = "nc" ∷ "{{.Host}}" ∷ "{{.Port}}" ∷ []
tunnel_exec (a ∷ exec) = a ∷ exec

module _ (render : List String → PortEndpoint → Result String) where
  tunnel_error : ℕ → ℕ → Error → Error
  tunnel_error index i e =
      wrapf "manifest.qemu.fwd_tunnel_exec (manifest.networks[%d].forward[%d]): %w"
        (num (pos index) (num (pos i) end)) e

  rendered : ℕ → ℕ → NormalizedForwardPort → Result String → Result NetdevOption
  unfolding tunnel_error
  rendered index i n (err e) = err (tunnel_error index i e)
  rendered index i n (ok command) = ok (guest_forward n.proto n.guest command)

  tunnelled : ℕ → ℕ → List String → NormalizedForwardPort → Option Error → Result NetdevOption
  unfolding tunnel_error rendered
  tunnelled index i exec n (some e) = err (tunnel_error index i e)
  tunnelled index i exec n none = rendered index i n (render exec n.host)

  -- One round of the loop of `resolveForwardPorts`
  unfoldable pub forward_option :
      ℕ → ℕ → List String → Result NormalizedForwardPort → Result NetdevOption
  unfolding tunnelled
  forward_option index i exec (err e) = err e
  forward_option index i exec (ok n) =
      if str_eq n.from "host"
      then ok (host_forward n.proto n.host n.guest)
      else tunnelled index i exec n (reject_legacy_env 0 exec)

  and_options : Result NetdevOption → Result (List NetdevOption) → Result (List NetdevOption)
  and_options (err e) rest = err e
  and_options (ok o) (err e) = err e
  and_options (ok o) (ok os) = ok (o ∷ os)

  options_from : ℕ → ℕ → List String → List ForwardPort → Result (List NetdevOption)
  unfolding and_options
  options_from index i exec [] = ok []
  options_from index i exec (f ∷ fs) =
      and_options
        (forward_option index i exec (normalize_forward_port f (forward_in_network index i)))
        (options_from index (suc i) exec fs)

  -- `resolveForwardPorts`
  unfoldable pub resolve_forward_ports :
      List ForwardPort → List String → ℕ → Result (List NetdevOption)
  unfolding options_from
  resolve_forward_ports ports exec index = options_from index 0 (tunnel_exec exec) ports

  -- The vectors of a device with several queues.
  unfoldable pub mq_vectors_of : Option ℤ → String → ℤ
  mq_vectors_of none transport = pos 0
  mq_vectors_of (some cpus) transport =
      if ltb_ℤ (pos 1) cpus && str_eq transport "pci" then wrap64 (cpus *ℤ 2 +ℤ pos 2) else pos 0

  and_devices : NetDevice → Result (List NetDevice) → Result (List NetDevice)
  and_devices d (err e) = err e
  and_devices d (ok ds) = ok (d ∷ ds)

  one_device :
      Surroundings
      → NetworkInput
      → Result (List NetdevOption)
      → Result (List NetDevice)
      → Result (List NetDevice)
  unfolding and_devices
  one_device s n (err e) rest = err e
  one_device s n (ok options) rest =
      and_devices
        (record {
          id = or_text n.id "microvm1";
          backend = or_text n.kind "user";
          mac_address = or_text n.mac "02:02:00:00:00:01";
          transport = s.transport;
          disable_rom = str_eq s.transport "pci" || not (str_eq s.system "x86_64-linux");
          netdev_options = options;
          mq_vectors = mq_vectors_of s.cpus s.transport;
        })
        rest

  networks_from : Surroundings → ℕ → List NetworkInput → Result (List NetDevice)
  unfolding one_device
  networks_from s i [] = ok []
  networks_from s i (n ∷ ns) =
      one_device s n (resolve_forward_ports n.forward s.exec i) (networks_from s (suc i) ns)

  -- `resolveNetwork`
  unfoldable pub resolve_network : Surroundings → List NetworkInput → Result (List NetDevice)
  unfolding networks_from
  resolve_network s networks = networks_from s 0 networks
