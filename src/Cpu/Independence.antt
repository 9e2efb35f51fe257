-- ===== src/Cpu/Independence.antt =====
-- src/processes.c: the parameters of the CPU monitor do not disturb one another.
use sysmngr.Prelude.{
  ◌≡◌, ◌≢◌, refl, sym, ap, ◌∙◌, false, Option, subst, some, none, none-some, codes, Text, text_eq,
}
use mathlib.Core.Option.{some-injective}
use mathlib.Core.Logic.{ite, if_pos, if_neg}
use sysmngr.Uci.{Uci}
use sysmngr.Cpu.{cpu_key, CpuInfo}
use sysmngr.Memory.Params.{valueset, ParamLib, Params}
use sysmngr.Cpu.Params.{
  set_enable, set_poll_interval, set_num_samples, set_critical_rise_threshold,
  set_critical_fall_threshold, set_enable_critical_log, set_file_path,
}
use sysmngr.DataModel.{DmLib, DmLaws, ok}
use sysmngr.DataModel.Reads.{
  OneSection, shown_or, option_or_written, option_or_other, time_stamp_other, log_reference_other,
  config-move_log, bit_text, shown_bit,
}
use sysmngr.Cpu.Options.{Param-discrete, option, writer, option-differs}
use sysmngr.Cpu.Values.{
  Param, enable, name, up_time, user_mode_utilization, system_mode_utilization,
  idle_mode_utilization, cpu_utilization, num_samples, poll_interval, critical_rise_threshold,
  critical_fall_threshold, critical_rise_time_stamp, critical_fall_time_stamp, enable_critical_log,
  vendor_log_file_ref, file_path, Setter, setter, set_file_path_of, get_param, default_log_path,
}

one_section : OneSection cpu_key
one_section o p = refl

-- What a parameter that can be set shows of an accepted value.
abbrev pub shown : ParamLib → Param → Text → Text
shown lib enable value = bit_text (lib.string_to_bool value)
shown lib enable_critical_log value = bit_text (lib.string_to_bool value)
shown lib poll_interval value = shown_or (codes "5") value
shown lib num_samples value = shown_or (codes "30") value
shown lib critical_rise_threshold value = shown_or (codes "80") value
shown lib critical_fall_threshold value = shown_or (codes "60") value
shown lib p value = shown_or default_log_path value

-- What is written into UCI.
abbrev stored : ParamLib → Param → Text → Text
stored lib enable value = bit_text (lib.string_to_bool value)
stored lib enable_critical_log value = bit_text (lib.string_to_bool value)
stored lib p value = value

module _ (u : Uci) (d : DmLib u) (laws : DmLaws u d) (lib : ParamLib) (g : CpuInfo u)
    (line : Option Text) where
  -- A parameter that does not read the written option stays.
  get-other :
      (q : Param) (o v : Text) (s t : Params u)
      → t.config ≡ u.set s.config (cpu_key o) v
      → text_eq o (option q) ≡ false
      → (q ≡ vendor_log_file_ref → t.existing ≡ s.existing)
      → get_param u d g line q t ≡ get_param u d g line q s
  unfolding get_param
  get-other enable o v s t w n e = option_or_other u d laws cpu_key one_section s t o v w _ _ n
  get-other name o v s t w n e = refl
  get-other up_time o v s t w n e = refl
  get-other user_mode_utilization o v s t w n e = refl
  get-other system_mode_utilization o v s t w n e = refl
  get-other idle_mode_utilization o v s t w n e = refl
  get-other cpu_utilization o v s t w n e = refl
  get-other poll_interval o v s t w n e =
      option_or_other u d laws cpu_key one_section s t o v w _ _ n
  get-other num_samples o v s t w n e = option_or_other u d laws cpu_key one_section s t o v w _ _ n
  get-other critical_rise_threshold o v s t w n e =
      option_or_other u d laws cpu_key one_section s t o v w _ _ n
  get-other critical_fall_threshold o v s t w n e =
      option_or_other u d laws cpu_key one_section s t o v w _ _ n
  get-other critical_rise_time_stamp o v s t w n e =
      time_stamp_other u d laws cpu_key one_section s t o v w _ n
  get-other critical_fall_time_stamp o v s t w n e =
      time_stamp_other u d laws cpu_key one_section s t o v w _ n
  get-other enable_critical_log o v s t w n e =
      option_or_other u d laws cpu_key one_section s t o v w _ _ n
  get-other vendor_log_file_ref o v s t w n e =
      log_reference_other u d laws cpu_key one_section s t o v w _ _ n (e refl)
  get-other file_path o v s t w n e = option_or_other u d laws cpu_key one_section s t o v w _ _ n

  -- What a setter of the table leaves behind when it gives 0.
  abbrev Wrote : Param → Text → Params u → Params u → Type 0
  Wrote p value s t =
      (t.config ≡ u.set s.config (cpu_key (option p)) (stored lib p value))
      × (p ≢ file_path → t.existing ≡ s.existing)

  abbrev Writes : Param → Text → Params u → Setter u d → Type 0
  Writes p value s set = (set valueset value s).0 ≡ 0 → Wrote p value s (set valueset value s).1

  by_setter :
      (p : Param) (value : Text) (s : Params u) (f set : Setter u d)
      → some f ≡ some set
      → Writes p value s f
      → Writes p value s set
  by_setter p value s f set e w = subst (Writes p value s) (some-injective _ _ e) w

  setter-Writes :
      (p : Param) (set : Setter u d) (value : Text) (s : Params u)
      → lib.fault_9007 ≢ 0
      → setter u d lib p ≡ some set
      → Writes p value s set
  unfolding setter set_enable set_poll_interval set_num_samples set_critical_rise_threshold
      set_critical_fall_threshold set_enable_critical_log set_file_path
  setter-Writes enable set value s fault e =
      by_setter enable value s _ set e (λ z. (refl, λ n. refl))
  setter-Writes name set value s fault e = cc
  setter-Writes up_time set value s fault e = cc
  setter-Writes user_mode_utilization set value s fault e = cc
  setter-Writes system_mode_utilization set value s fault e = cc
  setter-Writes idle_mode_utilization set value s fault e = cc
  setter-Writes cpu_utilization set value s fault e = cc
  setter-Writes poll_interval set value s fault e =
      by_setter poll_interval value s _ set e (λ z. (refl, λ n. refl))
  setter-Writes num_samples set value s fault e =
      by_setter num_samples value s _ set e (λ z. (refl, λ n. refl))
  setter-Writes critical_rise_threshold set value s fault e =
      by_setter critical_rise_threshold value s _ set e (λ z. (refl, λ n. refl))
  setter-Writes critical_fall_threshold set value s fault e =
      by_setter critical_fall_threshold value s _ set e (λ z. (refl, λ n. refl))
  setter-Writes critical_rise_time_stamp set value s fault e = cc
  setter-Writes critical_fall_time_stamp set value s fault e = cc
  setter-Writes enable_critical_log set value s fault e =
      by_setter enable_critical_log value s _ set e (λ z. (refl, λ n. refl))
  setter-Writes vendor_log_file_ref set value s fault e = cc
  setter-Writes file_path set value s fault e =
      by_setter file_path value s (set_file_path_of u d lib) set e
        (λ z. (config-move_log u lib cpu_key _ value s fault z, λ n. absurd (n refl)))

  get-same :
      (p : Param) (set : Setter u d) (value : Text) (s t : Params u)
      → setter u d lib p ≡ some set
      → Wrote p value s t
      → get_param u d g line p t ≡ ok (shown lib p value)
  unfolding get_param setter
  get-same enable set value s t e w =
      option_or_written u d laws cpu_key one_section s t _ _ w.0 _
      ∙ ap ok (shown_bit _ (lib.string_to_bool value))
  get-same name set value s t e w = cc
  get-same up_time set value s t e w = cc
  get-same user_mode_utilization set value s t e w = cc
  get-same system_mode_utilization set value s t e w = cc
  get-same idle_mode_utilization set value s t e w = cc
  get-same cpu_utilization set value s t e w = cc
  get-same poll_interval set value s t e w =
      option_or_written u d laws cpu_key one_section s t _ _ w.0 _
  get-same num_samples set value s t e w =
      option_or_written u d laws cpu_key one_section s t _ _ w.0 _
  get-same critical_rise_threshold set value s t e w =
      option_or_written u d laws cpu_key one_section s t _ _ w.0 _
  get-same critical_fall_threshold set value s t e w =
      option_or_written u d laws cpu_key one_section s t _ _ w.0 _
  get-same critical_rise_time_stamp set value s t e w = cc
  get-same critical_fall_time_stamp set value s t e w = cc
  get-same enable_critical_log set value s t e w =
      option_or_written u d laws cpu_key one_section s t _ _ w.0 _
      ∙ ap ok (shown_bit _ (lib.string_to_bool value))
  get-same vendor_log_file_ref set value s t e w = cc
  get-same file_path set value s t e w =
      option_or_written u d laws cpu_key one_section s t _ _ w.0 _

  writer_self : (p : Param) (set : Setter u d) → setter u d lib p ≡ some set → writer p ≡ p
  unfolding setter
  writer_self vendor_log_file_ref set e = cc
  writer_self up_time set e = cc
  writer_self user_mode_utilization set e = cc
  writer_self system_mode_utilization set e = cc
  writer_self idle_mode_utilization set e = cc
  writer_self cpu_utilization set e = cc
  writer_self p set e = refl

  writable-ne-name : (p : Param) (set : Setter u d) → setter u d lib p ≡ some set → p ≢ name
  unfolding setter
  writable-ne-name p set e n =
      none-some set (sym (subst (λ r. setter u d lib r ≡ none) (sym n) refl) ∙ e)

  writers-differ :
      (p q : Param) → p ≢ name → p ≢ q → (p ≡ file_path → q ≢ vendor_log_file_ref) → p ≢ writer q
  writers-differ p vendor_log_file_ref named differ apart e = apart e refl
  writers-differ p up_time named differ apart e = named e
  writers-differ p user_mode_utilization named differ apart e = named e
  writers-differ p system_mode_utilization named differ apart e = named e
  writers-differ p idle_mode_utilization named differ apart e = named e
  writers-differ p cpu_utilization named differ apart e = named e
  writers-differ p q named differ apart e = differ e

  existing-kept :
      (p q : Param) (value : Text) (s t : Params u)
      → Wrote p value s t
      → (p ≡ file_path → q ≢ vendor_log_file_ref)
      → q ≡ vendor_log_file_ref
      → t.existing ≡ s.existing
  existing-kept p q value s t w apart e = w.1 (λ f. apart f e)

  -- If the fault of a bad value is not 0, a setter that gives 0 makes its own parameter read as the value, in the
  -- form that is stored, or as the default if that is empty; every other parameter reads as before, except that VendorLogFileRef may
  -- change with FilePath.
  pub get_param-set_cpu :
      (p q : Param) (set : Setter u d) (value : Text) (s : Params u)
      → lib.fault_9007 ≢ 0
      → setter u d lib p ≡ some set
      → (set valueset value s).0 ≡ 0
      → (p ≡ file_path → q ≢ vendor_log_file_ref)
      → get_param u d g line q (set valueset value s).1
        ≡ ite (Param-discrete p q) (ok (shown lib p value)) (get_param u d g line q s)
  get_param-set_cpu p q set value s fault e z apart = elim (Param-discrete p q) [
    | yes same ↦ rw (if_pos (Param-discrete p q) same) (
        subst (λ r. get_param u d g line r (set valueset value s).1 ≡ ok (shown lib p value)) same
          (get-same p set value s _ e wrote))
    | no differ ↦ rw (if_neg (Param-discrete p q) differ) (
        get-other q (option p) (stored lib p value) s (set valueset value s).1 wrote.0
          (option-differs p q (
            subst (λ r. r ≢ writer q) (sym (writer_self p set e))
              (writers-differ p q (writable-ne-name p set e) differ apart)))
          (existing-kept p q value s (set valueset value s).1 wrote apart))
  ]
    where
      wrote : Wrote p value s (set valueset value s).1
      wrote = setter-Writes p set value s fault e z
