-- ===== src/Cpu/Values.antt =====
-- src/processes.c: what the parameters of Device.DeviceInfo.ProcessStatus and of its object CPU read. `Cpu.Params` has
-- the setters of CPU.
use sysmngr.Prelude.{ℕ, Option, none, some, List, [], ◌∷◌, map, codes, text_eq, if◌then◌else◌, Text}
use sysmngr.Prelude.Int.{ℤ}
use sysmngr.Libc.{decimal, decimal_ℤ}
use sysmngr.Uci.{Uci}
use sysmngr.Stat.{get_jif_val, get_cpu_load}
use sysmngr.Utils.{sysmngr_get_uptime}
use sysmngr.Cpu.{CpuInfo, cpu_key, calculate_average_samples, no_jiffies}
use sysmngr.Memory.Params.{Action, ParamLib, Params}
use sysmngr.Cpu.Params.{
  set_enable, set_poll_interval, set_num_samples, set_critical_rise_threshold,
  set_critical_fall_threshold, set_enable_critical_log, set_file_path,
}
use sysmngr.DataModel.{DmLib, Reading, ok, option_or, time_stamp, log_reference}

-- The rows of tDeviceInfoProcessStatusCPUParams that have a value, but for Alias, which dmmap keeps.
pub data Param : Type 0 where
  name : Param
  enable : Param
  up_time : Param
  user_mode_utilization : Param
  system_mode_utilization : Param
  idle_mode_utilization : Param
  cpu_utilization : Param
  poll_interval : Param
  num_samples : Param
  critical_rise_threshold : Param
  critical_fall_threshold : Param
  critical_rise_time_stamp : Param
  critical_fall_time_stamp : Param
  enable_critical_log : Param
  vendor_log_file_ref : Param
  file_path : Param

abbrev pub default_log_path : Text
default_log_path = codes "/var/log/critical_cpu.log"

module _ (u : Uci) (d : DmLib u) where
  abbrev pub get_name : Reading
  get_name = ok (codes "cpu")

  abbrev pub get_enable : Params u → Reading
  get_enable s = option_or u d cpu_key (codes "enable") (codes "0") s

  -- `line` is what is read of /proc/uptime.
  abbrev pub get_up_time : Option Text → Reading
  get_up_time line = ok (decimal_ℤ (sysmngr_get_uptime line))

  abbrev pub get_average : CpuInfo u → List ℕ → Reading
  get_average g samples = ok (decimal (calculate_average_samples u g samples))

  abbrev pub get_user_mode_utilization : CpuInfo u → Reading
  get_user_mode_utilization g = get_average g g.user_utilization_samples

  abbrev pub get_system_mode_utilization : CpuInfo u → Reading
  get_system_mode_utilization g = get_average g g.system_utilization_samples

  abbrev pub get_idle_mode_utilization : CpuInfo u → Reading
  get_idle_mode_utilization g = get_average g g.idle_utilization_samples

  abbrev pub get_cpu_utilization : CpuInfo u → Reading
  get_cpu_utilization g = get_average g g.utilization_samples

  abbrev pub get_poll_interval : Params u → Reading
  get_poll_interval s = option_or u d cpu_key (codes "poll_interval") (codes "5") s

  abbrev pub get_num_samples : Params u → Reading
  get_num_samples s = option_or u d cpu_key (codes "num_samples") (codes "30") s

  abbrev pub get_critical_rise_threshold : Params u → Reading
  get_critical_rise_threshold s =
      option_or u d cpu_key (codes "critical_rise_threshold") (codes "80") s

  abbrev pub get_critical_fall_threshold : Params u → Reading
  get_critical_fall_threshold s =
      option_or u d cpu_key (codes "critical_fall_threshold") (codes "60") s

  abbrev pub get_critical_rise_time_stamp : Params u → Reading
  get_critical_rise_time_stamp s = time_stamp u d cpu_key (codes "critical_rise_time") s

  abbrev pub get_critical_fall_time_stamp : Params u → Reading
  get_critical_fall_time_stamp s = time_stamp u d cpu_key (codes "critical_fall_time") s

  abbrev pub get_enable_critical_log : Params u → Reading
  get_enable_critical_log s = option_or u d cpu_key (codes "enable_critical_log") (codes "0") s

  abbrev pub get_vendor_log_file_ref : Params u → Reading
  get_vendor_log_file_ref s = log_reference u d cpu_key (codes "file_path") default_log_path s

  abbrev pub get_file_path : Params u → Reading
  get_file_path s = option_or u d cpu_key (codes "file_path") default_log_path s

  -- `g` is g_cpu_info and `line` what is read of /proc/uptime.
  unfoldable pub get_param : CpuInfo u → Option Text → Param → Params u → Reading
  unfolding calculate_average_samples sysmngr_get_uptime
  get_param g line name s = get_name
  get_param g line enable s = get_enable s
  get_param g line up_time s = get_up_time line
  get_param g line user_mode_utilization s = get_user_mode_utilization g
  get_param g line system_mode_utilization s = get_system_mode_utilization g
  get_param g line idle_mode_utilization s = get_idle_mode_utilization g
  get_param g line cpu_utilization s = get_cpu_utilization g
  get_param g line poll_interval s = get_poll_interval s
  get_param g line num_samples s = get_num_samples s
  get_param g line critical_rise_threshold s = get_critical_rise_threshold s
  get_param g line critical_fall_threshold s = get_critical_fall_threshold s
  get_param g line critical_rise_time_stamp s = get_critical_rise_time_stamp s
  get_param g line critical_fall_time_stamp s = get_critical_fall_time_stamp s
  get_param g line enable_critical_log s = get_enable_critical_log s
  get_param g line vendor_log_file_ref s = get_vendor_log_file_ref s
  get_param g line file_path s = get_file_path s

  abbrev pub Setter : Type 0
  Setter = Action → Text → Params u → ℕ × Params u

  -- The setter of FilePath reads the path before the change.
  abbrev pub set_file_path_of : ParamLib → Setter
  set_file_path_of lib action value s =
      set_file_path u lib action (d.read_or s.config (cpu_key (codes "file_path")) default_log_path)
        value s

  -- NULL in the table is none.
  unfoldable pub setter : ParamLib → Param → Option Setter
  setter lib enable = some (set_enable u lib)
  setter lib poll_interval = some (set_poll_interval u lib)
  setter lib num_samples = some (set_num_samples u lib)
  setter lib critical_rise_threshold = some (set_critical_rise_threshold u lib)
  setter lib critical_fall_threshold = some (set_critical_fall_threshold u lib)
  setter lib enable_critical_log = some (set_enable_critical_log u lib)
  setter lib file_path = some (set_file_path_of lib)
  setter lib name = none
  setter lib up_time = none
  setter lib user_mode_utilization = none
  setter lib system_mode_utilization = none
  setter lib idle_mode_utilization = none
  setter lib cpu_utilization = none
  setter lib critical_rise_time_stamp = none
  setter lib critical_fall_time_stamp = none
  setter lib vendor_log_file_ref = none

  -- The load between two reads of /proc/stat.
  unfoldable pub get_cpu_usage : (Text → Text) → Option Text → Option Text → ℕ
  get_cpu_usage strip first second =
      get_cpu_load (get_jif_val strip first (no_jiffies u))
        (get_jif_val strip second (no_jiffies u))

  -- CPUUsage: the average where the monitor is enabled, and else a fresh measurement.
  unfoldable pub get_process_cpu_usage :
      (Text → Text) → Option Text → Option Text → CpuInfo u → u.Config → Text
  unfolding get_cpu_usage
  get_process_cpu_usage strip first second g c =
      if text_eq (d.read_or c (cpu_key (codes "enable")) (codes "0")) (codes "1")
      then decimal (calculate_average_samples u g g.utilization_samples)
      else decimal (get_cpu_usage strip first second)

  -- Alias of the one instance of CPU.
  unfoldable pub get_alias : Text → d.Dmmap → ℤ × Text
  get_alias instance_name s = d.get_alias s (codes "cpu_alias") instance_name

  unfoldable pub set_alias : Action → Text → Text → d.Dmmap → ℕ × d.Dmmap
  set_alias action instance_name value s =
      d.set_alias action (codes "cpu_alias") instance_name value s

  -- The section cpu of dmmap, found there or added; the one instance is 1.
  abbrev pub section_or : d.Dmmap → Option d.Dmmap → d.Dmmap
  section_or added none = added
  section_or added (some s) = s

  unfoldable pub browse_cpu_inst : (added : d.Dmmap) → Option d.Dmmap → List (Text × d.Dmmap)
  browse_cpu_inst added found = (codes "1", section_or added found) ∷ []

  unfoldable pub get_cpu_number_of_entries : (added : d.Dmmap) → Option d.Dmmap → Text
  unfolding browse_cpu_inst
  get_cpu_number_of_entries added found =
      decimal (d.number_of_entries (map (λ i. i.0) (browse_cpu_inst added found)))

-- The arguments of the event CPUCriticalState!.
abbrev pub cpu_critical_state_event_args : List Text
cpu_critical_state_event_args = codes "CPUUtilization" ∷ codes "Name" ∷ []
