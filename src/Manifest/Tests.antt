-- ===== src/Manifest/Tests.antt =====
-- The theorems on the manifest at concrete inputs.
use virtle.Prelude.{String, true, false, ◌≡◌, refl, [], ◌∷◌, Option, none, some}
use virtle.Prelude.Int.{pos}
use virtle.Prelude.Errors.{Error}
use virtle.Hotplug.Device.{HotplugDevice, virtio_fs, block}
use virtle.Manifest.{Manifest, Run, content_path}
use virtle.Manifest.Checked.{passed}
use virtle.Manifest.Devices.{valid_image_format, validate_hotplugs, validate_hotplug}
use virtle.Manifest.Templates.{
  Node, nil_list, other_node, list_node, if_node, action_node, field_node, nil, cons,
  template_uses_bare_workspace, template_answers, template_panics, mentions, is_complete, is_plain,
}

abbrev share : HotplugDevice
share = record {
  kind = virtio_fs;
  id = "work";
  virtiofs = record {
    source = "/home/work";
    target = "";
    socket_path = "/run/work.sock";
    bin = "virtiofsd";
    args = [];
  };
  net = record { backend = ""; mac = ""; forward = [] };
  block = record { image_path = ""; format = ""; read_only = false; serial = "" };
}

abbrev disk : HotplugDevice
disk = record share {
  kind = block;
  id = "disk";
  block = record { image_path = "/disk.img"; format = "raw"; read_only = false; serial = "" };
}

abbrev manifest : Manifest
manifest = record {
  host_name = "vm";
  working_dir = "/vm";
  lock_path = "/vm/lock";
  ssh_user = "root";
  retry_delay = pos 500000000;
  qemu = record {
    binary_path = "qemu-system-x86_64";
    memory_size = pos 1024;
    cpus = none;
    graphics_backend = "";
    qmp_socket_path = "/vm/qmp.sock";
    agent_socket_path = "/vm/qga.sock";
    command_timeout = pos 0;
    shutdown_timeout = pos 0;
    shutdown_exec = "poweroff" ∷ [];
    pcie_ports = pos 2;
    devices = record {
      rng_transport = "pci";
      vsock_transport = "pci";
      virtiofs = [];
      nine_p_transports = [];
      block = [];
      mounts = none ∷ [];
      network_transports = "pci" ∷ [];
      balloon = none;
    };
  };
  volumes =
      record { image_path = "/vm/data.img"; size = pos 256; fs_type = ""; auto_create = true } ∷ [];
  cid_start = pos 0;
  cid_end = pos 0;
  write_files =
      ("/etc/motd", record { mode = "0644"; write_back = true; kind = content_path; path = "motd" })
      ∷ [];
  run = record { exec = "make" ∷ []; env = []; vars = "Target" ∷ [] } ∷ [];
  hotplug = share ∷ disk ∷ [];
  cleanup_files = "/vm/qmp.sock" ∷ [];
}

-- Each text is a template that mentions nothing.
abbrev parse : String → Option Node
parse s = some (list_node (cons other_node nil))

abbrev no_error : Run → Option Error
no_error run = none

hotplugs_pass : validate_hotplugs manifest.hotplug ≡ passed
unfolding validate_hotplugs validate_hotplug valid_image_format
hotplugs_pass = refl

-- {{if .Debug}}{{.Workspace.GuestPath}}{{end}}
abbrev without_else : Node
without_else =
    if_node (field_node ("Debug" ∷ []))
      (list_node (cons (action_node (field_node ("Workspace" ∷ "GuestPath" ∷ []))) nil)) nil_list

-- The same with an else.
abbrev with_else : Node
with_else =
    if_node (field_node ("Debug" ∷ [])) (list_node nil)
      (list_node (cons (action_node (field_node ("Workspace" ∷ []))) nil))

has_else : is_complete with_else ≡ true
unfolding is_complete
has_else = refl

is_plain_else : is_plain with_else ≡ true
unfolding is_plain
is_plain_else = refl

template_answers_example : template_uses_bare_workspace with_else ≡ some (mentions with_else)
template_answers_example = template_answers with_else has_else is_plain_else

no_mention : mentions without_else ≡ false
unfolding mentions
no_mention = refl

no_else : is_complete without_else ≡ false
unfolding is_complete
no_else = refl

template_panics_example : template_uses_bare_workspace without_else ≡ none
template_panics_example = template_panics without_else no_mention no_else
