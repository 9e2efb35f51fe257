-- ===== src/Memory/Applied.antt =====
-- src/memory.c: what the monitor has of a parameter that is set, after the next reading of the configuration.
use sysmngr.Prelude.{
  ℕ, ◌≡◌, ◌≢◌, refl, sym, ap, ◌∙◌, subst, Bool, true, false, Bool-cases, inl, inr, none, some,
  none-some, if◌then◌else◌, codes, is_empty, snprintf_s, Text, text_eq, text_eq_refl,
}
use mathlib.Core.Logic.{ite, if_pos, if_neg}
use sysmngr.Libc.{u32, strtoul, strtol, signed_digits, digits_value, to_int}
use sysmngr.Uci.{Uci, UciLaws}
use sysmngr.Memory.{MemoryCtx, memory_key, bool_option, fill_global_memory_ctx}
use sysmngr.Memory.Params.{valueset, ParamLib, Params}
use sysmngr.DataModel.{DmLib, DmLaws}
use sysmngr.DataModel.Reads.{shown_or, bit_text}
use sysmngr.Memory.Values.{
  Param, enable, polling_interval, critical_rise_threshold, critical_fall_threshold,
  critical_rise_time_stamp, critical_fall_time_stamp, enable_critical_log, file_path, Setter,
  setter, default_log_path,
}
use sysmngr.Memory.Options.{Param-discrete, option, writer, option-differs}
use sysmngr.Memory.Independence.{stored, setter-Writes, writer_self}

-- What is in a buffer of the size after an option with the value is read.
abbrev pub in_buffer : ℕ → Text → Text → Text
in_buffer n fallback value = snprintf_s n (shown_or fallback value)

-- A number that is read of an option with the value.
abbrev pub number_of : Text → Text → ℕ
number_of fallback value = u32 (strtoul (in_buffer 16 fallback value))

buffered :
    (n : ℕ) (fallback value : Text)
    → (if is_empty value then snprintf_s n fallback else snprintf_s n value)
      ≡ in_buffer n fallback value
buffered n fallback value = elim (Bool-cases (is_empty value)) [
  | inl e ↦ rw e refl
  | inr e ↦ rw e refl
]

bool_option-bit : (b : Bool) → bool_option (in_buffer 16 (codes "0") (bit_text b)) ≡ b
unfolding strtol signed_digits digits_value to_int
bool_option-bit true = refl
bool_option-bit false = refl

module _ (u : Uci) (laws : UciLaws u) (d : DmLib u) (dm : DmLaws u d) (lib : ParamLib) where
  -- The context that the monitor fills of a configuration.
  abbrev pub filled : MemoryCtx u → u.Config → MemoryCtx u
  filled g c = fill_global_memory_ctx u (record g { monitored = record g.monitored { config = c } })

  module _ (p : Param) (value : Text) (before after : u.Config)
      (wrote : after ≡ u.set before (memory_key (option p)) (stored lib p value)) where
    read_written :
        (o fallback : Text) (n : ℕ)
        → text_eq (option p) o ≡ true
        → u.get after (memory_key o) fallback n ≡ in_buffer n fallback (stored lib p value)
    read_written o fallback n same =
        ap (λ c. u.get c (memory_key o) fallback n) wrote
        ∙ laws.get-set before (memory_key (option p)) (memory_key o) (stored lib p value) fallback n
        ∙ rw same (buffered n fallback (stored lib p value))

    read_kept :
        (o fallback : Text) (n : ℕ)
        → text_eq (option p) o ≡ false
        → u.get after (memory_key o) fallback n ≡ u.get before (memory_key o) fallback n
    read_kept o fallback n differs =
        ap (λ c. u.get c (memory_key o) fallback n) wrote
        ∙ laws.get-set before (memory_key (option p)) (memory_key o) (stored lib p value) fallback n
        ∙ rw differs refl

    -- What is made of an option is made of the new text for the parameter that was set, and of the old text for others.
    field {ℓ} :
        {X : Type ℓ} (q : Param) (fallback : Text) (n : ℕ) (f : Text → X) (x : X)
        → writer p ≡ p
        → writer q ≡ q
        → (p ≡ q → f (in_buffer n fallback (stored lib p value)) ≡ x)
        → f (u.get after (memory_key (option q)) fallback n)
          ≡ ite (Param-discrete p q) x (f (u.get before (memory_key (option q)) fallback n))
    field q fallback n f x wp wq made = elim (Param-discrete p q) [
      | yes same ↦ rw (if_pos (Param-discrete p q) same) (
          ap f (
            read_written (option q) fallback n
              (subst (λ r. text_eq (option p) (option r) ≡ true) same (text_eq_refl (option p))))
          ∙ made same)
      | no differ ↦ rw (if_neg (Param-discrete p q) differ) (
          ap f
            (read_kept (option q) fallback n (option-differs p q (λ e. differ (sym wp ∙ e ∙ wq)))))
    ]

    kept {ℓ} :
        {X : Type ℓ} (q : Param) (fallback : Text) (n : ℕ) (f : Text → X)
        → writer p ≡ p
        → writer q ≡ q
        → p ≢ q
        → f (u.get after (memory_key (option q)) fallback n)
          ≡ f (u.get before (memory_key (option q)) fallback n)
    kept q fallback n f wp wq differ =
        ap f (read_kept (option q) fallback n (option-differs p q (λ e. differ (sym wp ∙ e ∙ wq))))

  read_only :
      (p q : Param) (set : Setter u d)
      → setter u d lib p ≡ some set
      → setter u d lib q ≡ none
      → p ≢ q
  read_only p q set e n same =
      none-some set (sym (subst (λ r. setter u d lib r ≡ none) (sym same) n) ∙ e)

  -- If the fault of a bad value is not 0, a setter that gives 0 reaches the monitor with the next reading of the
  -- configuration: its own field is the value as a flag, as a number of 32 bits cut to 15 digits, or as a path
  -- cut to 511 bytes, the default standing for an empty value; and every other field, the two stamps included,
  -- is what it was.
  pub fill-setter :
      (p : Param) (set : Setter u d) (value : Text) (s : Params u) (g : MemoryCtx u)
      → lib.fault_9007 ≢ 0
      → setter u d lib p ≡ some set
      → (set valueset value s).0 ≡ 0
      → let old = filled g s.config in
        let new = filled g (set valueset value s).1.config in
        let had = old.monitored.watch in
        let has = new.monitored.watch in
        (new.enable ≡ ite (Param-discrete p enable) (lib.string_to_bool value) old.enable)
        × (new.polling_interval
            ≡ ite
                (Param-discrete p polling_interval)
                (number_of (codes "60") value)
                old.polling_interval)
        × (has.critical_rise_threshold
            ≡ ite
                (Param-discrete p critical_rise_threshold)
                (number_of (codes "80") value)
                had.critical_rise_threshold)
        × (has.critical_fall_threshold
            ≡ ite
                (Param-discrete p critical_fall_threshold)
                (number_of (codes "60") value)
                had.critical_fall_threshold)
        × (has.enable_critical_log
            ≡ ite
                (Param-discrete p enable_critical_log)
                (lib.string_to_bool value)
                had.enable_critical_log)
        × (has.log_file
            ≡ ite (Param-discrete p file_path) (in_buffer 512 default_log_path value) had.log_file)
        × (has.critical_rise_time ≡ had.critical_rise_time)
        × (has.critical_fall_time ≡ had.critical_fall_time)
  unfolding fill_global_memory_ctx
  fill-setter p set value s g fault e z =
      let w = (setter-Writes u d dm lib none p set value s fault e z).0 in
      let self = writer_self u d dm lib none p set e in
      let number =
        λ (q : Param) (fallback : Text) (same : p ≡ q) (plain : stored lib q value ≡ value).
          ap (λ v. number_of fallback v) (ap (λ r. stored lib r value) same ∙ plain) in
      let flag =
        λ (q : Param) (same : p ≡ q)
            (bit : stored lib q value ≡ bit_text (lib.string_to_bool value)).
          ap (λ v. bool_option (in_buffer 16 (codes "0") v))
            (ap (λ r. stored lib r value) same ∙ bit)
          ∙ bool_option-bit (lib.string_to_bool value) in
      let c = s.config in
      let c' = (set valueset value s).1.config in
      (
        field p value c c' w enable (codes "0") 16 bool_option _ self refl
            (λ r. flag enable r refl),
        field p value c c' w polling_interval (codes "60") 16 (λ t. u32 (strtoul t)) _ self refl
            (λ r. number polling_interval (codes "60") r refl),
        field p value c c' w critical_rise_threshold (codes "80") 16 (λ t. u32 (strtoul t)) _ self
            refl (λ r. number critical_rise_threshold (codes "80") r refl),
        field p value c c' w critical_fall_threshold (codes "60") 16 (λ t. u32 (strtoul t)) _ self
            refl (λ r. number critical_fall_threshold (codes "60") r refl),
        field p value c c' w enable_critical_log (codes "0") 16 bool_option _ self refl
            (λ r. flag enable_critical_log r refl),
        field p value c c' w file_path default_log_path 512 (λ t. t) _ self refl
            (λ r. ap (λ v. in_buffer 512 default_log_path (stored lib v value)) r),
        kept p value c c' w critical_rise_time_stamp (codes "0") 16 strtol self refl
            (read_only p critical_rise_time_stamp set e (unfold setter in refl)),
        kept p value c c' w critical_fall_time_stamp (codes "0") 16 strtol self refl
            (read_only p critical_fall_time_stamp set e (unfold setter in refl)),
      )
