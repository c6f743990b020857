-- ===== src/Balloon/Tests.antt =====
-- The balloon controller's theorems at concrete inputs.
use virtle.Prelude.{
  if◌then◌else◌, str_eq, ◌≡◌, refl, true, false, List, [], ◌∷◌, none, some, arith, All, String,
}
use virtle.Prelude.Int.{ℤ, pos, ◌≤ℤ◌, ◌<ℤ◌, quot, ◌+ℤ◌, ◌-ℤ◌, ◌*ℤ◌, wrap64, saturate64}
use virtle.Prelude.Errors.{Result, ok, err, plain}
use virtle.Balloon.Config.{
  default_reclaim_above_available, default_grow_below_available, default_min_actual,
  BalloonControllerConfig, BalloonDevice, fill_controller, zero_config, bytes,
}
use virtle.Balloon.Defaults.{IsValidController}
use virtle.Balloon.Evaluate.{
  ControllerState, GuestStatsSample, evaluate, time_sub, decide_sample, grow, reclaim,
  available_memory,
}
use virtle.Balloon.Evaluate.Bounds.{Fits}
use virtle.Balloon.Evaluate.Holdoff.{Observation, HeldSince, after, reclaim_needs_held}
use virtle.Balloon.Qom.{
  contains, first_supported, add_children, candidates, has_qom_property, ObjectPropertyInfo,
  peripheral_anon, resolve_qom_path, supports_guest_stats,
}
use virtle.Balloon.Controller.{stats_poll_seconds, Cycle, Session, run, run_loop, tick, read_sample}
use virtle.Balloon.Controller.Sizes.{IsStep, run_IsStep}

abbrev device : BalloonDevice
device = record {
  id = "balloon0";
  transport = "pci";
  deflate_on_oom = true;
  free_page_reporting = false;
  controller = none;
}

abbrev config : BalloonControllerConfig
config = record {
  min_actual = pos 1024;
  max_actual = pos 2048;
  grow_below_available = pos 512;
  reclaim_above_available = pos 1024;
  step = pos 256;
  poll_interval = pos 5000000000;
  reclaim_holdoff = pos 30000000000;
}

filled : fill_controller (pos 2048) zero_config ≡ config
unfolding fill_controller default_min_actual default_grow_below_available
    default_reclaim_above_available quot wrap64 ◌+ℤ◌
filled = refl

config-IsValid : IsValidController (pos 2048) config
config-IsValid = omega arith

-- 10 s after the zero time, and nothing above the threshold yet.
abbrev fresh_state : ControllerState
fresh_state = record { started_at = pos 10000000000; above_threshold_since = pos 0 }

-- 100 MiB are available.
abbrev low : GuestStatsSample
low = record {
  available_memory_bytes = pos 104857600;
  has_available_memory = true;
  last_update = pos 20000000000;
}

-- 1536 MiB of memory.
abbrev half_full : ℤ
half_full = pos 1610612736

half_full-Fits : Fits config half_full
half_full-Fits = omega arith

-- 1400 MiB are available.
abbrev high : GuestStatsSample
high = record {
  available_memory_bytes = pos 1468006400;
  has_available_memory = true;
  last_update = pos 20000000000;
}

abbrev first_high : Observation
first_high = record { now = pos 21000000000; actual = half_full; sample = high }

abbrev later_high : Observation
later_high = record {
  now = pos 52000000000;
  actual = half_full;
  sample = record high { last_update = pos 51000000000 };
}

reclaim_needs_held_example :
    (t : ℤ) × HeldSince config t (first_high ∷ [])
    × (config.reclaim_holdoff ≤ℤ time_sub later_high.now t)
    × (bytes config.reclaim_above_available <ℤ later_high.sample.available_memory_bytes)
unfolding after evaluate decide_sample grow reclaim bytes time_sub saturate64 ◌*ℤ◌ ◌-ℤ◌ ◌+ℤ◌ wrap64
reclaim_needs_held_example =
    reclaim_needs_held config fresh_state (first_high ∷ []) later_high
      (record { target = pos 1342177280; apply = true }) refl refl refl (omega arith)

abbrev guest_stats : List ObjectPropertyInfo
guest_stats =
    (record { name = "guest-stats"; type = "guest statistics" })
    ∷ (record { name = "guest-stats-polling-interval"; type = "int" })
    ∷ []

abbrev anonymous : ObjectPropertyInfo
anonymous = record { name = "device[3]"; type = "child<virtio-balloon-pci>" }

-- A tree in which only an anonymous device has the balloon's properties.
abbrev tree : String → Result (List ObjectPropertyInfo)
tree path =
    if str_eq path peripheral_anon
    then ok (anonymous ∷ [])
    else if str_eq path "/machine/peripheral-anon/device[3]"
    then ok guest_stats
    else err (plain "qmp qom-list")

abbrev failing : Cycle
failing = record {
  now = pos 21000000000;
  read_balloon_stats = err (plain "qmp qom-get guest-stats");
  query_balloon = err (plain "qmp query-balloon");
  set_balloon_logical_size = λ target. none;
}

abbrev growing : Cycle
growing = record {
  now = pos 21000000000;
  read_balloon_stats =
      ok (record {
        stats = ("stat-free-memory", pos 104857600) ∷ [];
        last_update = pos 20000000000;
      });
  query_balloon = ok half_full;
  set_balloon_logical_size = λ target. none;
}

abbrev session : Session
session = record {
  list_qom_properties = tree;
  enable_balloon_stats_polling = λ path seconds. none;
  started_at = pos 10000000000;
  cycles = growing ∷ failing ∷ [];
}

run_IsStep_example : All (IsStep config) (run config "balloon0" (some session)).1
run_IsStep_example =
    run_IsStep config (pos 2048) config-IsValid "balloon0" session (half_full-Fits, (tt, tt))

-- The run of the example sets one size, and ends with the context.
run_sets :
    run config "balloon0" (some session)
    ≡ (none, (record { before = half_full; target = pos 1879048192 }) ∷ [])
unfolding run run_loop tick read_sample available_memory resolve_qom_path supports_guest_stats
    has_qom_property candidates add_children first_supported contains stats_poll_seconds evaluate
    decide_sample grow reclaim bytes time_sub saturate64 ◌*ℤ◌ ◌-ℤ◌ ◌+ℤ◌ wrap64 quot
run_sets = refl
