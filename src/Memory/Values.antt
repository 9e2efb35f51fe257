-- ===== src/Memory/Values.antt =====
-- src/memory.c: what the parameters of Device.DeviceInfo.MemoryStatus read. `Memory.Params` has their setters.
use sysmngr.Prelude.{ℕ, ◌*◌, ◌/◌, Option, none, some, codes, Text, List, [], ◌∷◌}
use sysmngr.Libc.{u32, u64, decimal}
use sysmngr.Uci.{Uci}
use sysmngr.Memory.{MemInfo, no_info, memory_key, sysmngr_meminfo, calculate_memory_utilization}
use sysmngr.Memory.Params.{
  Action, ParamLib, Params, set_enable, set_polling_interval, set_critical_rise_threshold,
  set_critical_fall_threshold, set_enable_critical_log, set_file_path,
}
use sysmngr.DataModel.{DmLib, Reading, ok, option_or, time_stamp, log_reference}

-- The rows of tDeviceInfoMemoryStatusMemoryMonitorParams that have a value.
pub data Param : Type 0 where
  enable : Param
  mem_utilization : Param
  polling_interval : Param
  critical_rise_threshold : Param
  critical_fall_threshold : Param
  critical_rise_time_stamp : Param
  critical_fall_time_stamp : Param
  enable_critical_log : Param
  vendor_log_file_ref : Param
  file_path : Param

abbrev pub default_log_path : Text
default_log_path = codes "/var/log/critical_memory.log"

module _ (u : Uci) (d : DmLib u) where
  abbrev pub get_enable : Params u → Reading
  get_enable s = option_or u d memory_key (codes "enable") (codes "0") s

  abbrev pub utilization_text : Option ℕ → Reading
  utilization_text none = none
  utilization_text (some utilization) = ok (decimal utilization)

  -- `file` is /proc/meminfo.
  unfoldable pub get_mem_utilization : Option Text → Reading
  get_mem_utilization file = utilization_text (calculate_memory_utilization file)

  abbrev pub get_polling_interval : Params u → Reading
  get_polling_interval s = option_or u d memory_key (codes "polling_interval") (codes "60") s

  abbrev pub get_critical_rise_threshold : Params u → Reading
  get_critical_rise_threshold s =
      option_or u d memory_key (codes "critical_rise_threshold") (codes "80") s

  abbrev pub get_critical_fall_threshold : Params u → Reading
  get_critical_fall_threshold s =
      option_or u d memory_key (codes "critical_fall_threshold") (codes "60") s

  abbrev pub get_critical_rise_time_stamp : Params u → Reading
  get_critical_rise_time_stamp s = time_stamp u d memory_key (codes "critical_rise_time") s

  abbrev pub get_critical_fall_time_stamp : Params u → Reading
  get_critical_fall_time_stamp s = time_stamp u d memory_key (codes "critical_fall_time") s

  abbrev pub get_enable_critical_log : Params u → Reading
  get_enable_critical_log s = option_or u d memory_key (codes "enable_critical_log") (codes "0") s

  abbrev pub get_vendor_log_file_ref : Params u → Reading
  get_vendor_log_file_ref s = log_reference u d memory_key (codes "file_path") default_log_path s

  abbrev pub get_file_path : Params u → Reading
  get_file_path s = option_or u d memory_key (codes "file_path") default_log_path s

  unfoldable pub get_param : Option Text → Param → Params u → Reading
  unfolding get_mem_utilization
  get_param file enable s = get_enable s
  get_param file mem_utilization s = get_mem_utilization file
  get_param file polling_interval s = get_polling_interval s
  get_param file critical_rise_threshold s = get_critical_rise_threshold s
  get_param file critical_fall_threshold s = get_critical_fall_threshold s
  get_param file critical_rise_time_stamp s = get_critical_rise_time_stamp s
  get_param file critical_fall_time_stamp s = get_critical_fall_time_stamp s
  get_param file enable_critical_log s = get_enable_critical_log s
  get_param file vendor_log_file_ref s = get_vendor_log_file_ref s
  get_param file file_path s = get_file_path s

  abbrev pub Setter : Type 0
  Setter = Action → Text → Params u → ℕ × Params u

  -- The setter of FilePath reads the path before the change.
  abbrev pub set_file_path_of : ParamLib → Setter
  set_file_path_of lib action value s =
      set_file_path u lib action
        (d.read_or s.config (memory_key (codes "file_path")) default_log_path) value s

  -- NULL in the table is none.
  unfoldable pub setter : ParamLib → Param → Option Setter
  setter lib enable = some (set_enable u lib)
  setter lib polling_interval = some (set_polling_interval u lib)
  setter lib critical_rise_threshold = some (set_critical_rise_threshold u lib)
  setter lib critical_fall_threshold = some (set_critical_fall_threshold u lib)
  setter lib enable_critical_log = some (set_enable_critical_log u lib)
  setter lib file_path = some (set_file_path_of lib)
  setter lib mem_utilization = none
  setter lib critical_rise_time_stamp = none
  setter lib critical_fall_time_stamp = none
  setter lib vendor_log_file_ref = none

-- Total and Free print fields of what sysmngr_meminfo fills, which stays zero if it fails.
abbrev pub info_or_zero : Option MemInfo → MemInfo
info_or_zero none = no_info
info_or_zero (some info) = info

unfoldable pub get_memory_status_total : Option Text → Text
get_memory_status_total file = decimal (info_or_zero (sysmngr_meminfo file)).mem_total

unfoldable pub get_memory_status_free : Option Text → Text
get_memory_status_free file = decimal (info_or_zero (sysmngr_meminfo file)).mem_free

-- statvfs of /overlay/; none if it fails.
pub record StatVfs : Type 0 where
  pub f_bsize : ℕ
  pub f_blocks : ℕ
  pub f_bavail : ℕ

unfoldable pub get_memory_status_total_persistent : Option StatVfs → Text
get_memory_status_total_persistent none = codes "0"
get_memory_status_total_persistent (some info) =
    decimal (u32 (u64 (info.f_bsize * info.f_blocks) / 1024))

unfoldable pub get_memory_status_free_persistent : Option StatVfs → Text
get_memory_status_free_persistent none = codes "0"
get_memory_status_free_persistent (some info) =
    decimal (u32 (u64 (info.f_bsize * info.f_bavail) / 1024))

-- The arguments of the event MemoryCriticalState!.
abbrev pub memory_critical_state_event_args : List Text
memory_critical_state_event_args = codes "MemUtilization" ∷ []
