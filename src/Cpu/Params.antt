-- ===== src/Cpu/Params.antt =====
-- src/processes.c: the setters of Device.DeviceInfo.ProcessStatus.CPU, with what Memory.Params has for both
-- monitors.
use sysmngr.Prelude.{
  ℕ, ◌≤◌, ◌≡◌, ◌≢◌, refl, sym, subst, ap, ◌∙◌, Bool, true, false, ◌&&◌, Option, none, some,
  if◌then◌else◌, arith, codes, take_all, [], ◌∷◌, is_empty, length, length-replicate, Text,
}
use sysmngr.Libc.{u32, strtoul, signed_digits, digits_value}
use sysmngr.Uci.{Uci, UciLaws}
use sysmngr.Memory.Params.{
  Action, valuecheck, valueset, ParamLib, Params, is_log_path, set_bool, set_unsigned, put,
  move_log,
}
use sysmngr.Cpu.{CpuInfo, CpuLib, cpu_key, fill_global_cpu_info}

module _ (u : Uci) (lib : ParamLib) where
  unfoldable pub set_enable : Action → Text → Params u → ℕ × Params u
  set_enable action value s = set_bool u lib cpu_key (codes "enable") action value s

  unfoldable pub set_poll_interval : Action → Text → Params u → ℕ × Params u
  set_poll_interval action value s =
      set_unsigned u lib cpu_key (codes "poll_interval") none action value s

  -- Between 1 and 300.
  unfoldable pub set_num_samples : Action → Text → Params u → ℕ × Params u
  set_num_samples valuecheck value s = (
    if lib.validate_unsigned_int (some (codes "1")) (some (codes "300")) value
        then 0
        else lib.fault_9007,
    s,
  )
  set_num_samples valueset value s = (0, put u lib cpu_key (codes "num_samples") value s)

  unfoldable pub set_critical_rise_threshold : Action → Text → Params u → ℕ × Params u
  set_critical_rise_threshold action value s =
      set_unsigned u lib cpu_key (codes "critical_rise_threshold") (some (codes "100")) action value
        s

  unfoldable pub set_critical_fall_threshold : Action → Text → Params u → ℕ × Params u
  set_critical_fall_threshold action value s =
      set_unsigned u lib cpu_key (codes "critical_fall_threshold") (some (codes "100")) action value
        s

  unfoldable pub set_enable_critical_log : Action → Text → Params u → ℕ × Params u
  set_enable_critical_log action value s =
      set_bool u lib cpu_key (codes "enable_critical_log") action value s

  -- `old` is the file_path of UCI, or the default path.
  unfoldable pub set_file_path : Action → Text → Text → Params u → ℕ × Params u
  set_file_path valuecheck old value s =
      (if lib.validate_string value && is_log_path value then 0 else lib.fault_9007, s)
  set_file_path valueset old value s = move_log u lib cpu_key old value s

accepted : (a : Bool) (fault : ℕ) → fault ≢ 0 → (if a then 0 else fault) ≡ 0 → a ≡ true
accepted true fault f e = refl
accepted false fault f e = absurd (f e)

not_empty : (value : Text) → 1 ≤ strtoul value → is_empty value ≡ false
unfolding strtoul signed_digits digits_value
not_empty [] h = absurd (omega arith)
not_empty (c ∷ s) h = refl

-- If whatever the validator accepts between 1 and 300 is read as a number in that range, then a value of at most 15
-- characters that passes the check and is set, with leading zeros or not, gives after the next reading of the
-- configuration, with memory for the samples, the number of samples that it is read as, between 1 and 300,
-- and four arrays of that length.
pub num_samples-fill :
    (u : Uci) (laws : UciLaws u) (lib : ParamLib) (cpu : CpuLib) (stat : Option Text) (value : Text)
    (p : Params u) (s : CpuInfo u)
    → lib.fault_9007 ≢ 0
    → ((t : Text)
        → lib.validate_unsigned_int (some (codes "1")) (some (codes "300")) t ≡ true
        → (1 ≤ strtoul t) × (strtoul t ≤ 300))
    → length value ≤ 15
    → (set_num_samples u lib valuecheck value p).0 ≡ 0
    → let p' = (set_num_samples u lib valueset value p).1 in
      let t =
        fill_global_cpu_info u cpu true stat
          (record s { monitored = record s.monitored { config = p'.config } }) in
      (t.num_samples ≡ strtoul value)
      × (1 ≤ t.num_samples)
      × (t.num_samples ≤ 300)
      × (length t.utilization_samples ≡ t.num_samples)
      × (length t.user_utilization_samples ≡ t.num_samples)
      × (length t.system_utilization_samples ≡ t.num_samples)
      × (length t.idle_utilization_samples ≡ t.num_samples)
unfolding fill_global_cpu_info set_num_samples
num_samples-fill u laws lib cpu stat value p s fault range short ok =
    let (low, high) = range value (accepted _ lib.fault_9007 fault ok) in
    let got : u.get (u.set p.config (cpu_key (codes "num_samples")) value)
          (cpu_key (codes "num_samples")) (codes "30") 16
        ≡ value =
      laws.get-set p.config (cpu_key (codes "num_samples")) (cpu_key (codes "num_samples")) value
        (codes "30") 16
      ∙ rw (not_empty value low) (take_all 15 value short) in
    let num : u32 (
          strtoul (
            u.get (u.set p.config (cpu_key (codes "num_samples")) value)
              (cpu_key (codes "num_samples")) (codes "30") 16))
        ≡ strtoul value =
      ap (λ text. u32 (strtoul text)) got ∙ omega arith in
    (
      num,
      subst (λ m. 1 ≤ m) (sym num) low,
      subst (λ m. m ≤ 300) (sym num) high,
      length-replicate _ 0,
      length-replicate _ 0,
      length-replicate _ 0,
      length-replicate _ 0,
    )
