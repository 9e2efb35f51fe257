-- ===== src/Cpu/Options.antt =====
-- src/processes.c: the options of UCI behind the parameters of the monitor.
use sysmngr.Prelude.{
  ◌≡◌, ◌≢◌, refl, sym, ap, ◌∙◌, false, Bool-cases, inl, inr, [], if◌then◌else◌, codes, Text,
  text_eq, eq_of_text_eq,
}
use sysmngr.Cpu.Values.{
  Param, enable, name, up_time, user_mode_utilization, system_mode_utilization,
  idle_mode_utilization, cpu_utilization, num_samples, poll_interval, critical_rise_threshold,
  critical_fall_threshold, critical_rise_time_stamp, critical_fall_time_stamp, enable_critical_log,
  vendor_log_file_ref, file_path,
}

unfoldable pub Param-discrete : Discrete Param
Param-discrete = hlevel

-- The option behind a parameter, if it has one.
abbrev pub option : Param → Text
option enable = codes "enable"
option name = []
option up_time = []
option user_mode_utilization = []
option system_mode_utilization = []
option idle_mode_utilization = []
option cpu_utilization = []
option poll_interval = codes "poll_interval"
option num_samples = codes "num_samples"
option critical_rise_threshold = codes "critical_rise_threshold"
option critical_fall_threshold = codes "critical_fall_threshold"
option critical_rise_time_stamp = codes "critical_rise_time"
option critical_fall_time_stamp = codes "critical_fall_time"
option enable_critical_log = codes "enable_critical_log"
option vendor_log_file_ref = codes "file_path"
option file_path = codes "file_path"

-- The parameter that writes the option; `name` stands for those without one.
abbrev pub writer : Param → Param
writer vendor_log_file_ref = file_path
writer up_time = name
writer user_mode_utilization = name
writer system_mode_utilization = name
writer idle_mode_utilization = name
writer cpu_utilization = name
writer p = p

abbrev decode : Text → Param
decode t =
    if text_eq t (codes "enable")
    then enable
    else if text_eq t (codes "poll_interval")
    then poll_interval
    else if text_eq t (codes "num_samples")
    then num_samples
    else if text_eq t (codes "critical_rise_threshold")
    then critical_rise_threshold
    else if text_eq t (codes "critical_fall_threshold")
    then critical_fall_threshold
    else if text_eq t (codes "critical_rise_time")
    then critical_rise_time_stamp
    else if text_eq t (codes "critical_fall_time")
    then critical_fall_time_stamp
    else if text_eq t (codes "enable_critical_log")
    then enable_critical_log
    else if text_eq t (codes "file_path")
    then file_path
    else name

decode-option : (p : Param) → decode (option p) ≡ writer p
decode-option enable = refl
decode-option name = refl
decode-option up_time = refl
decode-option user_mode_utilization = refl
decode-option system_mode_utilization = refl
decode-option idle_mode_utilization = refl
decode-option cpu_utilization = refl
decode-option poll_interval = refl
decode-option num_samples = refl
decode-option critical_rise_threshold = refl
decode-option critical_fall_threshold = refl
decode-option critical_rise_time_stamp = refl
decode-option critical_fall_time_stamp = refl
decode-option enable_critical_log = refl
decode-option vendor_log_file_ref = refl
decode-option file_path = refl

pub option-differs : (p q : Param) → writer p ≢ writer q → text_eq (option p) (option q) ≡ false
option-differs p q differ = elim (Bool-cases (text_eq (option p) (option q))) [
  | inl e ↦ absurd (
      differ (
        sym (decode-option p)
        ∙ ap decode (eq_of_text_eq (option p) (option q) e)
        ∙ decode-option q))
  | inr e ↦ e
]
