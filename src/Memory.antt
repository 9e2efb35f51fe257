-- ===== src/Memory.antt =====
-- src/memory.c: /proc/meminfo, the utilization, the memory monitor and its configuration. Utilization
-- is none where the code divides by zero.
pub mod Utilization
pub mod Monitor
pub mod Params
pub mod Values
pub mod Options
pub mod Independence
pub mod Applied
use sysmngr.Prelude.{
  ℕ, ◌+◌, ◌-◌, ◌*◌, ◌/◌, ◌^◌, Bool, true, false, Option, none, some, ◌>>=◌, List, [], ◌∷◌, ◌==◌,
  if◌then◌else◌, codes, snprintf_s, text_eq, ◌||◌,
}
use sysmngr.Prelude.Strings.{Text}
use sysmngr.Prelude.Int.{ℤ, pos}
use sysmngr.Libc.{
  u32, u64, bits64, to_int, strtol, strtoul, strtok, same_nocase, fgets_lines, decimal,
}
use sysmngr.Uci.{Uci, Key}
use sysmngr.Utils.{Message, Names}
use sysmngr.Critical.{Monitored, check_thresholds}

-- unsigned long fields, of 64 bits.
pub record MemInfo : Type 0 where
  pub mem_total : ℕ
  pub mem_free : ℕ
  pub buffers : ℕ
  pub cached : ℕ
  pub sreclaimable : ℕ

abbrev pub no_info : MemInfo
no_info = record { mem_total = 0; mem_free = 0; buffers = 0; cached = 0; sreclaimable = 0 }

-- The keys are compared without regard to case.
abbrev pub store_field : Text → Text → MemInfo → MemInfo
store_field key val info =
    if same_nocase key (codes "MemTotal")
    then record info { mem_total = bits64 (strtol val) }
    else if same_nocase key (codes "MemFree")
    then record info { mem_free = bits64 (strtol val) }
    else if same_nocase key (codes "Buffers")
    then record info { buffers = bits64 (strtol val) }
    else if same_nocase key (codes "Cached")
    then record info { cached = bits64 (strtol val) }
    else if same_nocase key (codes "SReclaimable")
    then record info { sreclaimable = bits64 (strtol val) }
    else info

abbrev pub with_value : Text → Option (Text × Text) → MemInfo → MemInfo
with_value key none info = info
with_value key (some (val, rest)) info = store_field key val info

abbrev pub with_key : Option (Text × Text) → MemInfo → MemInfo
with_key none info = info
with_key (some (key, rest)) info = with_value key (strtok (b' ' ∷ []) rest) info

-- A line without two tokens is skipped.
unfoldable pub read_line : Text → MemInfo → MemInfo
read_line line info = with_key (strtok (b' ' ∷ b':' ∷ []) line) info

unfoldable pub read_lines : List Text → MemInfo → MemInfo
read_lines [] info = info
read_lines (line ∷ lines) info = read_lines lines (read_line line info)

-- none: the file cannot be opened (-1).
unfoldable pub sysmngr_meminfo : Option Text → Option MemInfo
sysmngr_meminfo none = none
sysmngr_meminfo (some file) = some (read_lines (fgets_lines 256 file) no_info)

abbrev pub used_mem : MemInfo → ℕ
used_mem i = u64 (i.mem_total + 2 ^ 64 - u64 (i.mem_free + i.buffers + i.cached + i.sreclaimable))

-- The unsigned division; none where it is by zero.
abbrev pub utilization_of : MemInfo → Option ℕ
utilization_of i =
    if i.mem_total == 0 then none else some (u32 (u64 (used_mem i * 100) / i.mem_total))

-- 0 if /proc/meminfo cannot be read.
abbrev pub utilization_from : Option MemInfo → Option ℕ
utilization_from none = some 0
utilization_from (some info) = utilization_of info

unfoldable pub calculate_memory_utilization : Option Text → Option ℕ
calculate_memory_utilization file = utilization_from (sysmngr_meminfo file)

unfoldable pub memory_critical_state_event : Names → ℕ → Message
memory_critical_state_event lib utilization = record {
  name = codes "Device.DeviceInfo.MemoryStatus.MemoryMonitor.MemoryCriticalState!";
  input = (codes "MemUtilization", snprintf_s 32 (decimal utilization), lib.dmt_unint) ∷ [];
}

-- g_memory_ctx, with its timer in milliseconds; `monitored` holds the thresholds, UCI and the effects.
pub record MemoryCtx (u : Uci) : Type 0 where
  pub timer : Option ℕ
  pub enable : Bool
  pub polling_interval : ℕ
  pub monitored : Monitored u
  -- The log files that are there.
  pub existing : Text → Bool

-- What one poll reads.
pub record Poll : Type 0 where
  pub meminfo : Option Text
  pub now : ℤ

abbrev pub memory_key : Text → Key
memory_key o = (codes "sysmngr", codes "memory", o)

abbrev pub bool_option : Text → Bool
bool_option t = elim (to_int (strtol t)) [ ℤ.pos n ↦ (if n == 0 then false else true) | _ ↦ true ]

module _ (u : Uci) where
  abbrev pub after_poll : Names → ℤ → ℕ → MemoryCtx u → MemoryCtx u
  after_poll lib now utilization s = record s {
    monitored =
        check_thresholds u (codes "memory") (codes "Memory") (memory_critical_state_event lib) now
          utilization s.monitored;
    timer = some (u32 (s.polling_interval * 1000));
  }

  -- none: the daemon dies by the division by zero.
  unfoldable pub run_memory_monitor : Names → Poll → MemoryCtx u → Option (MemoryCtx u)
  run_memory_monitor lib poll s = calculate_memory_utilization poll.meminfo >>= λ utilization.
      some (after_poll lib poll.now utilization s)

  -- The context that the configuration describes; a missing log file is created.
  unfoldable pub fill_global_memory_ctx : MemoryCtx u → MemoryCtx u
  fill_global_memory_ctx s =
      let c = s.monitored.config in
      let log =
        u.get c (memory_key (codes "file_path")) (codes "/var/log/critical_memory.log") 512 in
      record {
        timer = none;
        enable = bool_option (u.get c (memory_key (codes "enable")) (codes "0") 16);
        polling_interval =
            u32 (strtoul (u.get c (memory_key (codes "polling_interval")) (codes "60") 16));
        monitored = record s.monitored {
          watch = record {
            enable_critical_log =
                bool_option (u.get c (memory_key (codes "enable_critical_log")) (codes "0") 16);
            critical_rise_threshold =
                u32 (
                  strtoul (u.get c (memory_key (codes "critical_rise_threshold")) (codes "80") 16));
            critical_fall_threshold =
                u32 (
                  strtoul (u.get c (memory_key (codes "critical_fall_threshold")) (codes "60") 16));
            critical_rise_time =
                strtol (u.get c (memory_key (codes "critical_rise_time")) (codes "0") 16);
            critical_fall_time =
                strtol (u.get c (memory_key (codes "critical_fall_time")) (codes "0") 16);
            log_file = log;
          };
        };
        existing = λ path. s.existing path || text_eq path log;
      }

  unfoldable pub sysmngr_memory_init : Names → Poll → MemoryCtx u → Option (MemoryCtx u)
  sysmngr_memory_init lib poll s =
      let t = fill_global_memory_ctx s in if t.enable then run_memory_monitor lib poll t else some t

  unfoldable pub sysmngr_memory_clean : MemoryCtx u → MemoryCtx u
  sysmngr_memory_clean s = record s { timer = none }
