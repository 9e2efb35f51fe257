-- ===== src/Memory/Options.antt =====
-- src/memory.c: the options of UCI behind the parameters of the monitor.
use sysmngr.Prelude.{
  ◌≡◌, ◌≢◌, refl, sym, ap, ◌∙◌, false, Bool-cases, inl, inr, [], if◌then◌else◌, codes, Text,
  text_eq, eq_of_text_eq,
}
use sysmngr.Memory.Values.{
  Param, enable, mem_utilization, polling_interval, critical_rise_threshold,
  critical_fall_threshold, critical_rise_time_stamp, critical_fall_time_stamp, enable_critical_log,
  vendor_log_file_ref, file_path,
}

unfoldable pub Param-discrete : Discrete Param
Param-discrete = hlevel

-- The option behind a parameter; the utilization has none.
abbrev pub option : Param → Text
option enable = codes "enable"
option mem_utilization = []
option polling_interval = codes "polling_interval"
option critical_rise_threshold = codes "critical_rise_threshold"
option critical_fall_threshold = codes "critical_fall_threshold"
option critical_rise_time_stamp = codes "critical_rise_time"
option critical_fall_time_stamp = codes "critical_fall_time"
option enable_critical_log = codes "enable_critical_log"
option vendor_log_file_ref = codes "file_path"
option file_path = codes "file_path"

-- The parameter that writes the option.
abbrev pub writer : Param → Param
writer vendor_log_file_ref = file_path
writer p = p

abbrev decode : Text → Param
decode t =
    if text_eq t (codes "enable")
    then enable
    else if text_eq t (codes "polling_interval")
    then polling_interval
    else if text_eq t (codes "critical_rise_threshold")
    then critical_rise_threshold
    else if text_eq t (codes "critical_fall_threshold")
    then critical_fall_threshold
    else if text_eq t (codes "critical_rise_time")
    then critical_rise_time_stamp
    else if text_eq t (codes "critical_fall_time")
    then critical_fall_time_stamp
    else if text_eq t (codes "enable_critical_log")
    then enable_critical_log
    else if text_eq t (codes "file_path")
    then file_path
    else mem_utilization

decode-option : (p : Param) → decode (option p) ≡ writer p
decode-option enable = refl
decode-option mem_utilization = refl
decode-option polling_interval = refl
decode-option critical_rise_threshold = refl
decode-option critical_fall_threshold = refl
decode-option critical_rise_time_stamp = refl
decode-option critical_fall_time_stamp = refl
decode-option enable_critical_log = refl
decode-option vendor_log_file_ref = refl
decode-option file_path = refl

pub option-differs : (p q : Param) → writer p ≢ writer q → text_eq (option p) (option q) ≡ false
option-differs p q differ = elim (Bool-cases (text_eq (option p) (option q))) [
  | inl e ↦ absurd (
      differ (
        sym (decode-option p)
        ∙ ap decode (eq_of_text_eq (option p) (option q) e)
        ∙ decode-option q))
  | inr e ↦ e
]
