-- ===== src/Hotplug/Registry/Ports.antt =====
-- Which port `allocatePort` of the hotplug registry gives out.
use virtle.Prelude.{ℕ, zero, suc, ◌+◌, ◌≤◌, ◌<◌, ◌≡◌, true, false, List, none, some, arith}
use virtle.Hotplug.Registry.{Attachment, Runtime, occupied, first_free, allocate_port}

first_free_sound :
    (rounds port : ℕ) (xs : List Attachment) {q : ℕ}
    → first_free rounds port xs ≡ some q
    → (port ≤ q) × (q < port + rounds) × (occupied q xs ≡ false)
unfolding first_free
first_free_sound zero port xs {q} h = cc
first_free_sound (suc rounds) port xs {q} h =
    ground (arith, first_free_sound rounds (port + 1) xs {q = q})

first_free_complete :
    (rounds port q : ℕ) (xs : List Attachment)
    → port ≤ q
    → q < port + rounds
    → first_free rounds port xs ≡ none
    → occupied q xs ≡ true
unfolding first_free
first_free_complete zero port q xs l h e = absurd (omega arith)
first_free_complete (suc rounds) port q xs l h e =
    ground (arith, first_free_complete rounds (port + 1) q xs)

-- A port that is given out is one of the reserved ports, and free.
pub allocate_sound :
    (r : Runtime) (preferred count : ℕ) {port : ℕ}
    → allocate_port r preferred count ≡ some port
    → (port < count) × (occupied port r.attachments ≡ false)
unfolding allocate_port
allocate_sound r preferred count {port} h =
    ground (arith, first_free_sound count 0 r.attachments {q = port})

-- If no port is given out, then every reserved port is taken.
pub allocate_complete :
    (r : Runtime) (preferred count port : ℕ)
    → allocate_port r preferred count ≡ none
    → port < count
    → occupied port r.attachments ≡ true
unfolding allocate_port
allocate_complete r preferred count port h lt =
    ground (arith, first_free_complete count 0 port r.attachments)
