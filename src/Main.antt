-- ===== src/Main.antt =====
-- src/sysmngr.c: the options, the start and the end of the daemon, and the reload of its configuration. The
-- parts share one UCI configuration, which is handed from call to call. none: the daemon dies by a fault.
pub mod Reload
pub mod Start
pub mod Cleanup
pub mod Shutdown
use sysmngr.Prelude.{
  ℕ, ◌+◌, Bool, true, false, ◌&&◌, ◌||◌, not, Option, none, some, ◌>>=◌, List, [], ◌∷◌,
  if◌then◌else◌, Text,
}
use sysmngr.Prelude.Int.{ℤ, pos, ltb_ℤ}
use sysmngr.Uci.{Uci}
use sysmngr.Utils.{Names}
use sysmngr.Critical.{Monitored}
use sysmngr.Memory.{MemoryCtx, sysmngr_memory_init, sysmngr_memory_clean}
use sysmngr.Cpu.{CpuInfo, CpuLib, sysmngr_cpu_init, sysmngr_cpu_clean}
use sysmngr.Processes.{ProcessCtx, Proc, sysmngr_process_init, sysmngr_process_clean}
use sysmngr.Fwbank.{Blob, Fork, Fwbank, sysmngr_init_fwbank_dump, sysmngr_clean_fwbank_dump}
use sysmngr.Reboots.{BootLib, Boot, State, sysmngr_reboots_init}

-- The macros that the build defines.
pub record Features : Type 0 where
  pub reboots : Bool
  pub process_status : Bool
  pub memory_status : Bool
  pub fwbank_ubus_support : Bool
  pub firmware_image : Bool

-- What getopt gives, one after the other; a level is (int) strtod of the argument.
pub data Opt : Type 0 where
  level : ℤ → Opt
  help : Opt
  unknown : Opt

-- The level of the log, or true for EXIT_SUCCESS and false for EXIT_FAILURE.
pub data Options : Type 0 where
  go_on : ℤ → Options
  leave : Bool → Options

abbrev pub default_log_level : ℤ
default_log_level = pos 6

abbrev pub valid_level : ℤ → ℤ
valid_level n = if ltb_ℤ n (pos 0) || ltb_ℤ (pos 7) n then default_log_level else n

unfoldable pub parse_options : List Opt → ℤ → Options
parse_options [] log_level = go_on log_level
parse_options (level n ∷ opts) log_level = parse_options opts (valid_level n)
parse_options (help ∷ opts) log_level = leave true
parse_options (unknown ∷ opts) log_level = leave false

module _ (u : Uci) (b : Blob) where
  pub record Daemon : Type 0 where
    pub config : u.Config
    pub reboots_locked : Bool
    pub reboots_retry_count : ℕ
    pub reboots_timer : Option ℕ
    pub cpu : CpuInfo u
    pub memory : MemoryCtx u
    pub processes : ProcessCtx
    pub fwbank : Fwbank b
    -- The objects that are on the bus.
    pub data_model : Bool
    pub fwbank_object : Bool

  -- What the daemon meets: what the parts read as they start, and the calls of libbbfdm and libubus.
  pub record World : Type 0 where
    pub boot_lib : BootLib
    pub boot : Boot
    pub fwbank_exists : Bool
    pub fork : Fork
    pub ctx : Option ℕ
    pub proc : Proc
    pub cpu_lib : CpuLib
    pub allocated : Bool
    pub stat : Option Text
    pub poll : sysmngr.Memory.Poll
    -- The results 0.
    pub bbfdm_ubus_regiter_init : Bool
    pub ubus_add_object : Bool
    pub ubus_register_event_handler : Bool
    -- uloop_run: the state in which the loop leaves the daemon; none if a callback dies by a fault.
    pub uloop_run : Daemon → Option Daemon

  module _ (f : Features) (w : World) where
    abbrev pub start_reboots : Daemon → Daemon
    start_reboots s =
        let t = sysmngr_reboots_init u w.boot_lib w.boot (record {
          config = s.config;
          locked = s.reboots_locked;
          retry_count = s.reboots_retry_count;
          timer = s.reboots_timer;
        }) in
        record s {
          config = t.config;
          reboots_locked = t.locked;
          reboots_retry_count = t.retry_count;
          reboots_timer = t.timer;
        }

    abbrev pub start_fwbank : Daemon → Daemon
    start_fwbank s = record s {
      fwbank = (sysmngr_init_fwbank_dump b w.fwbank_exists w.fork w.ctx s.fwbank).1;
    }

    abbrev pub start_processes : Daemon → Daemon
    start_processes s = record s { processes = sysmngr_process_init u s.config w.proc s.processes }

    abbrev pub with_cpu : CpuInfo u → Daemon → Daemon
    with_cpu cpu s = record s { config = cpu.monitored.config; cpu = cpu }

    abbrev pub start_cpu : Daemon → Daemon
    start_cpu s =
        with_cpu
          (sysmngr_cpu_init u w.cpu_lib w.allocated w.stat
            (record s.cpu { monitored = record s.cpu.monitored { config = s.config } }))
          s

    abbrev pub clean_cpu : Daemon → Daemon
    clean_cpu s = record s { cpu = sysmngr_cpu_clean u s.cpu }

    abbrev pub with_memory : MemoryCtx u → Daemon → Daemon
    with_memory memory s = record s { config = memory.monitored.config; memory = memory }

    abbrev pub start_memory : Daemon → Option Daemon
    start_memory s =
        sysmngr_memory_init u w.cpu_lib.names w.poll
          (record s.memory { monitored = record s.memory.monitored { config = s.config } })
        >>= λ memory. some (with_memory memory s)

    abbrev pub clean_memory : Daemon → Daemon
    clean_memory s = record s { memory = sysmngr_memory_clean u s.memory }

    abbrev pub when : Bool → (Daemon → Daemon) → Daemon → Daemon
    when c g s = if c then g s else s

    abbrev pub when_some : Bool → (Daemon → Option Daemon) → Daemon → Option Daemon
    when_some c g s = if c then g s else some s

    unfoldable pub config_reload_cb : Daemon → Option Daemon
    config_reload_cb s =
        when_some f.memory_status (λ t. start_memory (clean_memory t))
          (when f.process_status (λ t. start_cpu (clean_cpu t)) s)

    -- Up to the registration.
    unfoldable pub start_parts : Daemon → Option Daemon
    start_parts s = when_some f.memory_status start_memory (
        when f.process_status (λ t. start_cpu (start_processes t))
          (when (f.fwbank_ubus_support || f.firmware_image) start_fwbank
            (when f.reboots start_reboots s)))

    abbrev pub listen : Daemon → Option Daemon
    listen s = if w.ubus_register_event_handler then w.uloop_run s else some s

    abbrev pub register_fwbank : Daemon → Option Daemon
    register_fwbank s =
        if f.fwbank_ubus_support
        then if w.ubus_add_object then listen (record s { fwbank_object = true }) else some s
        else listen s

    -- Each failure of a registration goes to the end; a fault in the loop does not.
    unfoldable pub register_and_run : Daemon → Option Daemon
    register_and_run s =
        if w.bbfdm_ubus_regiter_init
        then register_fwbank (record s { data_model = true })
        else some s

    abbrev pub clean_processes : Daemon → Daemon
    clean_processes s = clean_cpu (record s { processes = sysmngr_process_clean s.processes })

    abbrev pub unregister_fwbank : Daemon → Daemon
    unregister_fwbank s = record s { fwbank_object = false }

    abbrev pub clean_dump : Daemon → Daemon
    clean_dump s = record s { fwbank = sysmngr_clean_fwbank_dump b s.fwbank }

    -- From `out` on.
    unfoldable pub clean_parts : Daemon → Daemon
    clean_parts s = when (f.fwbank_ubus_support || f.memory_status) clean_dump (
        when f.fwbank_ubus_support unregister_fwbank (
          when f.memory_status clean_memory
            (when f.process_status clean_processes (record s { data_model = false }))))

    unfoldable pub serve : Daemon → Option Daemon
    unfolding start_parts register_and_run clean_parts
    serve s = start_parts s >>= λ t. register_and_run t >>= λ last. some (clean_parts last)

    -- The exit code 0 is true.
    abbrev pub after_options : Options → Daemon → Option (Bool × Daemon)
    after_options (leave ok) s = some (ok, s)
    after_options (go_on log_level) s = serve s >>= λ t. some (true, t)

    unfoldable pub main : List Opt → Daemon → Option (Bool × Daemon)
    unfolding parse_options serve
    main opts s = after_options (parse_options opts default_log_level) s
