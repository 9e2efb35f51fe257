-- ===== src/Memory/Params.antt =====
-- src/memory.c: the setters of Device.DeviceInfo.MemoryStatus.MemoryMonitor. `lib` has the validators of
-- libbbfdm, rename of libc and the fault code.
use sysmngr.Prelude.{
  ℕ, ◌<◌, ◌^◌, ◌≡◌, ◌≢◌, refl, sym, ap, ◌∙◌, Bool, true, false, ◌&&◌, ◌||◌, not, Option, none, some,
  List, [], ◌∷◌, ◌++◌, if◌then◌else◌, arith, codes, text_eq, has_prefix, strstr, snprintf_s,
  take_all,
}
use sysmngr.Prelude.Strings.{Text}
use sysmngr.Libc.{u32, decimal, strtoul}
use sysmngr.Libc.Decimal.{strtoul-decimal, length-decimal, decimal-nonempty}
use sysmngr.Uci.{Uci, UciLaws, Key}
use sysmngr.Memory.{MemoryCtx, memory_key, fill_global_memory_ctx}

pub data Action : Type 0 where
  valuecheck : Action
  valueset : Action

pub record ParamLib : Type 0 where
  -- true if the value is accepted.
  pub validate_boolean : Text → Bool
  pub validate_unsigned_int : Option Text → Option Text → Text → Bool
  pub validate_string : Text → Bool
  pub string_to_bool : Text → Bool
  -- true if the file is renamed.
  pub rename : Text → Text → Bool
  pub fault_9007 : ℕ

-- What a setter changes: UCI, the files, and the pairs of URIs that the VendorLogFile sections take.
pub record Params (u : Uci) : Type 0 where
  pub config : u.Config
  pub existing : Text → Bool
  pub relinked : List (Text × Text)

abbrev pub file_uri : Text → Text
file_uri path = snprintf_s 512 (codes "file://" ++ path)

abbrev pub is_log_path : Text → Bool
is_log_path value =
    (has_prefix value (codes "/var/log") || has_prefix value (codes "/log/"))
    && not (strstr value (codes ".."))

module _ (u : Uci) (lib : ParamLib) where
  -- `key` is the key of an option in the section that the setters belong to.
  abbrev pub put : (Text → Key) → Text → Text → Params u → Params u
  put key option value s = record s { config = u.set s.config (key option) value }

  abbrev pub set_bool : (Text → Key) → Text → Action → Text → Params u → ℕ × Params u
  set_bool key option valuecheck value s =
      (if lib.validate_boolean value then 0 else lib.fault_9007, s)
  set_bool key option valueset value s =
      (0, put key option (if lib.string_to_bool value then codes "1" else codes "0") s)

  abbrev pub set_unsigned :
      (Text → Key) → Text → Option Text → Action → Text → Params u → ℕ × Params u
  set_unsigned key option highest valuecheck value s =
      (if lib.validate_unsigned_int none highest value then 0 else lib.fault_9007, s)
  set_unsigned key option highest valueset value s = (0, put key option value s)

  unfoldable pub set_enable : Action → Text → Params u → ℕ × Params u
  set_enable action value s = set_bool memory_key (codes "enable") action value s

  unfoldable pub set_polling_interval : Action → Text → Params u → ℕ × Params u
  set_polling_interval action value s =
      set_unsigned memory_key (codes "polling_interval") none action value s

  unfoldable pub set_critical_rise_threshold : Action → Text → Params u → ℕ × Params u
  set_critical_rise_threshold action value s =
      set_unsigned memory_key (codes "critical_rise_threshold") (some (codes "100")) action value s

  unfoldable pub set_critical_fall_threshold : Action → Text → Params u → ℕ × Params u
  set_critical_fall_threshold action value s =
      set_unsigned memory_key (codes "critical_fall_threshold") (some (codes "100")) action value s

  unfoldable pub set_enable_critical_log : Action → Text → Params u → ℕ × Params u
  set_enable_critical_log action value s =
      set_bool memory_key (codes "enable_critical_log") action value s

  abbrev pub renamed : Text → Text → Params u → Params u
  renamed old value s = record s {
    existing = λ path. text_eq path value || (s.existing path && not (text_eq path old));
    relinked = s.relinked ++ ((file_uri old, file_uri value) ∷ []);
  }

  -- A log file that is there takes the new name first.
  abbrev pub move_log : (Text → Key) → Text → Text → Params u → ℕ × Params u
  move_log key old value s =
      if s.existing old
      then if lib.rename old value
        then (0, put key (codes "file_path") value (renamed old value s))
        else (lib.fault_9007, s)
      else (0, put key (codes "file_path") value s)

  -- `old` is the file_path of UCI, or the default path.
  unfoldable pub set_file_path : Action → Text → Text → Params u → ℕ × Params u
  set_file_path valuecheck old value s =
      (if lib.validate_string value && is_log_path value then 0 else lib.fault_9007, s)
  set_file_path valueset old value s = move_log memory_key old value s

true-false : true ≢ false
true-false e = cc

has_prefix-append : (p post : Text) → has_prefix (p ++ post) p ≡ true
has_prefix-append [] [] = refl
has_prefix-append [] (c ∷ post) = refl
has_prefix-append (c ∷ p) post = ground (arith, has_prefix-append p post)

or_true : (x : Bool) → (x || true) ≡ true
or_true true = refl
or_true false = refl

strstr-append : (p pre post : Text) → strstr (pre ++ (p ++ post)) p ≡ true
strstr-append [] [] [] = refl
strstr-append [] [] (c ∷ post) = refl
strstr-append (c ∷ p) [] post =
    ap (λ x. x || strstr (p ++ post) (c ∷ p)) (has_prefix-append (c ∷ p) post)
strstr-append p (c ∷ pre) post =
    ap (λ x. has_prefix (c ∷ (pre ++ (p ++ post))) p || x) (strstr-append p pre post) ∙ or_true _

tests_passed :
    (a x y : Bool) (fault : ℕ)
    → fault ≢ 0
    → (if a && (x && not y) then 0 else fault) ≡ 0
    → (x ≡ true) × (y ≡ false)
tests_passed true true false fault f e = (refl, refl)
tests_passed true true true fault f e = absurd (f e)
tests_passed true false y fault f e = absurd (f e)
tests_passed false x y fault f e = absurd (f e)

module _ (u : Uci) (lib : ParamLib) where
  -- If the value check accepts a file path, then the path starts with "/var/log" or "/log/", and ".." stands
  -- nowhere in it.
  pub accepted-IsSafe :
      (old value : Text) (s : Params u)
      → lib.fault_9007 ≢ 0
      → (set_file_path u lib valuecheck old value s).0 ≡ 0
      → ((has_prefix value (codes "/var/log") || has_prefix value (codes "/log/")) ≡ true)
        × ((pre post : Text) → value ≢ pre ++ (codes ".." ++ post))
  unfolding set_file_path
  accepted-IsSafe old value s fault ok =
      let (starts, clean) =
        tests_passed (lib.validate_string value)
          (has_prefix value (codes "/var/log") || has_prefix value (codes "/log/"))
          (strstr value (codes "..")) lib.fault_9007 fault ok in
      (
        starts,
        λ pre post e. true-false (
            sym (strstr-append (codes "..") pre post)
            ∙ ap (λ v. strstr v (codes "..")) (sym e)
            ∙ clean),
      )

-- A rise threshold of 32 bits that is set as a decimal number is the one that the monitor has after the
-- next reading of the configuration.
pub rise_threshold-fill :
    (u : Uci) (laws : UciLaws u) (lib : ParamLib) (n : ℕ) (p : Params u) (s : MemoryCtx u)
    → n < 2 ^ 32
    → let p' = (set_critical_rise_threshold u lib valueset (decimal n) p).1 in
      let t =
        fill_global_memory_ctx u
          (record s { monitored = record s.monitored { config = p'.config } }) in
      t.monitored.watch.critical_rise_threshold ≡ n
unfolding fill_global_memory_ctx set_critical_rise_threshold
rise_threshold-fill u laws lib n p s small =
    let whole : snprintf_s 16 (decimal n) ≡ decimal n =
      take_all 15 (decimal n) (omega (arith, length-decimal n 9 (omega arith))) in
    ap (λ text. u32 (strtoul text))
      (laws.get-set p.config (memory_key (codes "critical_rise_threshold"))
          (memory_key (codes "critical_rise_threshold")) (decimal n) (codes "80") 16
        ∙ rw (decimal-nonempty n) whole)
    ∙ ap u32 (strtoul-decimal n (omega arith))
    ∙ omega arith
