-- ===== src/Tests/Main.antt =====
-- The theorems on src/sysmngr.c at a concrete run.
use sysmngr.Prelude.{◌≡◌, refl, true, false, none, some, []}
use sysmngr.Prelude.Int.{pos}
use sysmngr.Uci.Table.{table_uci, empty_table}
use sysmngr.Fwbank.{child}
use sysmngr.Fwbank.Daemon.{start}
use sysmngr.Memory.{calculate_memory_utilization, sysmngr_meminfo}
use sysmngr.Main.{Features, Daemon, World, config_reload_cb}
use sysmngr.Main.Reload.{CpuFollows, MemoryFollows, OthersKept, reload-timers}
use sysmngr.Tests.Fwbank.{blob}
use sysmngr.Tests.Configs.{cpu_lib, info}
use sysmngr.Tests.Processes.{proc}

abbrev features : Features
features = record {
  reboots = true;
  process_status = true;
  memory_status = true;
  fwbank_ubus_support = true;
  firmware_image = false;
}

-- The memory cannot be read, which counts as 0; the loop ends at once.
abbrev world : World table_uci blob
world = record {
  boot_lib = record { strip = λ line. line; utc_time = λ size t. [] };
  boot = record { reason_exists = false; reason_file = none; now = pos 0; uptime = pos 0 };
  fwbank_exists = true;
  fork = child 100;
  ctx = some 1;
  proc = proc;
  cpu_lib = cpu_lib;
  allocated = true;
  stat = none;
  poll = record { meminfo = none; now = pos 0 };
  bbfdm_ubus_regiter_init = true;
  ubus_add_object = true;
  ubus_register_event_handler = true;
  uloop_run = λ s. some s;
}

abbrev daemon : Daemon table_uci blob
daemon = record {
  config = empty_table;
  reboots_locked = false;
  reboots_retry_count = 0;
  reboots_timer = none;
  cpu = info;
  memory = sysmngr.Tests.Params.ctx;
  processes = sysmngr.Tests.Processes.ctx;
  fwbank = start blob;
  data_model = false;
  fwbank_object = false;
}

reload-timers_example :
    (t : Daemon table_uci blob) × (config_reload_cb table_uci blob features world daemon ≡ some t)
    × CpuFollows table_uci blob true true daemon t
    × MemoryFollows table_uci blob true daemon t
    × OthersKept table_uci blob daemon t
reload-timers_example =
    reload-timers table_uci blob features world 0 daemon
      (unfold calculate_memory_utilization sysmngr_meminfo in refl)
