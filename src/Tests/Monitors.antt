-- ===== src/Tests/Monitors.antt =====
-- The theorems on src/memory.c, src/processes.c and their thresholds at concrete polls.
use sysmngr.Prelude.{
  ℕ, ◌+◌, ◌-◌, ◌*◌, ◌/◌, ◌≤◌, ◌≡◌, refl, true, false, none, some, List, [], ◌∷◌, ◌++◌, Text, codes,
  arith, map,
}
use mathlib.Core.Logic.{◌↔◌}
use sysmngr.Prelude.Int.{ℤ, pos, negsuc}
use sysmngr.Libc.{
  to_int, strtol, strtoul, signed_digits, digits_value, fgets_lines, fgets_from, strtok,
}
use sysmngr.Uci.Table.{table_uci, table_laws, empty_table}
use sysmngr.Utils.{Names}
use sysmngr.Critical.{Watch, Monitored}
use sysmngr.Critical.Levels.{
  Level, level_of, level_after, all_alarms, messages, IsStamped, Increasing, run_checks,
  run_checks-refines,
}
use sysmngr.Critical.Stale.{stale_clock_repeats}
use sysmngr.Critical.Saved.{IsSaved, ClockInRange, run_checks-IsSaved}
use sysmngr.Memory.{
  MemInfo, MemoryCtx, Poll, sysmngr_meminfo, read_line, read_lines, utilization_of,
  calculate_memory_utilization, memory_critical_state_event, memory_key, run_memory_monitor,
  fill_global_memory_ctx, sysmngr_memory_clean,
}
use sysmngr.Memory.Utilization.{IsConsistent, NoTotal, utilization-exact, run-none}
use sysmngr.Memory.Monitor.{
  Shows, none_left, one_more, run_polls, run_polls-refines, reload, reload-steps,
}
use sysmngr.Cpu
use sysmngr.Cpu.{CpuInfo, CpuLib, no_jiffies, calculate_average_samples}
use sysmngr.Cpu.Window.{latest}
use sysmngr.Cpu.Monitor
use sysmngr.Cpu.Monitor.{IsValid, mean, window_of, busy_samples, average-mean, run_polls-window}

abbrev names : Names
names = record {
  http_uri = codes "http";
  ftp_uri = codes "ftp";
  file_uri = codes "file";
  dmt_unint = codes "xsd:unsignedInt";
  dmt_string = codes "xsd:string";
}

abbrev watch : Watch
watch = record {
  enable_critical_log = true;
  critical_rise_threshold = 80;
  critical_fall_threshold = 60;
  critical_rise_time = pos 0;
  critical_fall_time = pos 0;
  log_file = codes "/var/log/critical_memory.log";
}

abbrev monitored : Monitored table_uci
monitored = record { watch = watch; config = empty_table; effects = [] }

abbrev memory_ctx : MemoryCtx table_uci
memory_ctx = record {
  timer = none;
  enable = true;
  polling_interval = 60;
  monitored = monitored;
  existing = λ path. false;
}

abbrev file : Text
file = codes "MemTotal: 100 kB\nMemFree: 10 kB\n"

abbrev polls : List (ℤ × ℕ)
polls = (pos 5, 90) ∷ (pos 6, 50) ∷ []

watch-IsStamped : IsStamped watch (pos 4)
watch-IsStamped = record { rise_past = omega arith; fall_past = omega arith; ordered = omega arith }

polls-Increasing : Increasing (pos 4) polls
polls-Increasing = (refl, (refl, _))

polls-ClockInRange : ClockInRange polls
polls-ClockInRange = ((5, refl, omega arith), ((6, refl, omega arith), _))

monitored-IsSaved : IsSaved table_uci table_laws (codes "memory") monitored
unfolding strtol signed_digits digits_value
monitored-IsSaved = record { rise_saved = refl; fall_saved = refl }

file-read : calculate_memory_utilization (some file) ≡ some 90
unfolding calculate_memory_utilization sysmngr_meminfo read_line read_lines strtol strtoul
    signed_digits digits_value fgets_lines fgets_from strtok
file-read = refl

run_checks-refines_example :
    let s' =
      run_checks table_uci
        (codes "memory")
        (codes "Memory")
        (memory_critical_state_event names)
        polls
        monitored in
    (level_of s'.watch ≡ level_after 80 60 Level.normal polls)
    × (messages s'.effects
        ≡ [] ++ map (memory_critical_state_event names) (all_alarms 80 60 Level.normal polls))
run_checks-refines_example =
    run_checks-refines table_uci (codes "memory") (codes "Memory")
      (memory_critical_state_event names) polls (pos 4) monitored watch-IsStamped polls-Increasing

stale_clock_example :
    let s' =
      run_checks table_uci
        (codes "memory")
        (codes "Memory")
        (memory_critical_state_event names)
        ((negsuc 3, 90) ∷ (negsuc 2, 85) ∷ [])
        monitored in
    (level_of s'.watch ≡ Level.normal)
    × (s'.watch.critical_fall_time ≡ pos 0)
    × (messages s'.effects
        ≡ memory_critical_state_event names 90 ∷ memory_critical_state_event names 85 ∷ [])
stale_clock_example =
    stale_clock_repeats table_uci (codes "memory") (codes "Memory")
      (memory_critical_state_event names) ((negsuc 3, 90) ∷ (negsuc 2, 85) ∷ []) monitored
      (omega arith) ((refl, omega arith, omega arith), ((refl, omega arith, omega arith), _))

run_checks-IsSaved_example : IsSaved table_uci table_laws (codes "memory") (
    run_checks table_uci
      (codes "memory")
      (codes "Memory")
      (memory_critical_state_event names)
      polls
      monitored)
run_checks-IsSaved_example =
    run_checks-IsSaved table_uci table_laws (codes "memory") (codes "Memory")
      (memory_critical_state_event names) polls monitored polls-ClockInRange monitored-IsSaved

abbrev memory_poll : Poll
memory_poll = record { meminfo = some file; now = pos 5 }

memory_polls-Shows : Shows table_uci names (memory_poll ∷ []) ((pos 5, 90) ∷ [])
memory_polls-Shows = one_more file-read none_left

run_polls-refines_example :
    (s' : MemoryCtx table_uci) × (run_polls table_uci names (memory_poll ∷ []) memory_ctx ≡ some s')
    × (level_of s'.monitored.watch ≡ level_after 80 60 Level.normal ((pos 5, 90) ∷ []))
    × (messages s'.monitored.effects
        ≡ []
          ++ map
              (memory_critical_state_event names)
              (all_alarms 80 60 Level.normal ((pos 5, 90) ∷ [])))
run_polls-refines_example =
    run_polls-refines table_uci names (pos 4) memory_ctx memory_polls-Shows watch-IsStamped
      (refl, _)

-- The monitor is enabled in UCI.
abbrev enabled : MemoryCtx table_uci
enabled = record memory_ctx {
  monitored = record monitored {
    config = table_uci.set empty_table (memory_key (codes "enable")) (codes "1");
  };
}

enabled-IsSaved : IsSaved table_uci table_laws (codes "memory") enabled.monitored
unfolding strtol signed_digits digits_value
enabled-IsSaved = record { rise_saved = refl; fall_saved = refl }

enabled-IsStamped :
    IsStamped
      (fill_global_memory_ctx table_uci (sysmngr_memory_clean table_uci enabled)).monitored.watch
      (pos 4)
unfolding fill_global_memory_ctx sysmngr_memory_clean strtol strtoul signed_digits digits_value
enabled-IsStamped = record {
  rise_past = omega arith;
  fall_past = omega arith;
  ordered = omega arith;
}

reload-steps_example :
    (s' : MemoryCtx table_uci) × (reload table_uci table_laws names memory_poll enabled ≡ some s')
    × (level_of s'.monitored.watch ≡ Level.critical)
    × (messages s'.monitored.effects ≡ memory_critical_state_event names 90 ∷ [])
unfolding fill_global_memory_ctx sysmngr_memory_clean strtol strtoul signed_digits digits_value
    to_int
reload-steps_example =
    reload-steps table_uci table_laws names 90 (pos 4) memory_poll enabled file-read enabled-IsSaved
      enabled-IsStamped refl

abbrev info : MemInfo
info = record { mem_total = 100; mem_free = 10; buffers = 5; cached = 5; sreclaimable = 0 }

info-IsConsistent : IsConsistent info
info-IsConsistent = record {
  some_memory = omega arith;
  parts_fit = omega arith;
  total_fits = omega arith;
}

utilization_example :
    (utilization_of info ≡ some ((100 - (10 + 5 + 5 + 0)) * 100 / 100))
    × ((100 - (10 + 5 + 5 + 0)) * 100 / 100 ≤ 100)
utilization_example = utilization-exact info info-IsConsistent

run-none_example :
    (run_memory_monitor table_uci names memory_poll memory_ctx ≡ none) ↔ NoTotal (some file)
run-none_example = run-none table_uci names memory_poll memory_ctx

abbrev pub cpu_info : CpuInfo table_uci
cpu_info = record {
  timer = none;
  jiffy = no_jiffies table_uci;
  enable = true;
  full_samples_reached = false;
  poll_interval = 5;
  user_utilization_samples = 0 ∷ 0 ∷ [];
  system_utilization_samples = 0 ∷ 0 ∷ [];
  idle_utilization_samples = 0 ∷ 0 ∷ [];
  utilization_samples = 30 ∷ 0 ∷ [];
  num_samples = 2;
  sample_index = 1;
  monitored = monitored;
  existing = λ path. false;
}

cpu_info-IsValid : IsValid table_uci cpu_info
cpu_info-IsValid = record {
  user_length = refl;
  system_length = refl;
  idle_length = refl;
  length_all = refl;
  index_inside = omega arith;
  count_in_range = omega arith;
}

abbrev cpu_lib : CpuLib
cpu_lib = record { strip = λ s. s; names = names }

abbrev cpu_polls : List Cpu.Poll
cpu_polls =
    record { stat = some (codes "cpu  10 0 10 60 20 0 0 0\n"); now = pos 5 }
    ∷ record { stat = none; now = pos 6 }
    ∷ []

average-mean_example :
    calculate_average_samples table_uci cpu_info (30 ∷ 0 ∷ [])
    ≡ mean table_uci (window_of table_uci cpu_info)
average-mean_example = average-mean table_uci cpu_info cpu_info-IsValid (omega arith)

run_polls-window_example :
    (s' : CpuInfo table_uci) × (Monitor.run_polls table_uci cpu_lib cpu_polls cpu_info ≡ some s')
    × IsValid table_uci s'
    × (window_of table_uci s'
        ≡ latest 2 (
            window_of table_uci cpu_info
            ++ busy_samples table_uci cpu_lib (no_jiffies table_uci) cpu_polls))
run_polls-window_example = run_polls-window table_uci cpu_lib cpu_polls cpu_info cpu_info-IsValid
