-- ===== src/DataModel/Reads.antt =====
-- What the getters of the two monitors read after an option of UCI was written.
use sysmngr.Prelude.{
  ◌≡◌, ◌≢◌, refl, sym, ap, ◌∙◌, Bool, true, false, Bool-cases, inl, inr, some, [], if◌then◌else◌,
  codes, is_empty, Text, text_eq, text_eq_refl,
}
use sysmngr.Libc.{strtol}
use sysmngr.Uci.{Uci, Key, key_eq}
use sysmngr.Memory.Params.{Params, ParamLib, file_uri, move_log}
use sysmngr.DataModel.{DmLib, DmLaws, option_or, time_stamp, log_reference, ok}

-- The keys of one section, which differ in the name of the option alone.
abbrev pub OneSection : (Text → Key) → Type 0
OneSection key = (o p : Text) → key_eq (key o) (key p) ≡ text_eq o p

-- What an option with a fallback shows of a value.
abbrev pub shown_or : Text → Text → Text
shown_or fallback value = if is_empty value then fallback else value

module _ (u : Uci) (d : DmLib u) (laws : DmLaws u d) (key : Text → Key) (one : OneSection key)
    (s t : Params u) (written value : Text)
    (wrote : t.config ≡ u.set s.config (key written) value) where
  read_after :
      (o : Text)
      → d.read t.config (key o) ≡ (if text_eq written o then value else d.read s.config (key o))
  read_after o =
      ap (λ c. d.read c (key o)) wrote
      ∙ laws.read-set s.config (key written) (key o) value
      ∙ ap (λ b. if b then value else d.read s.config (key o)) (one written o)

  read_other :
      (o : Text) → text_eq written o ≡ false → d.read t.config (key o) ≡ d.read s.config (key o)
  read_other o differs =
      read_after o ∙ ap (λ b. if b then value else d.read s.config (key o)) differs

  read_or_other :
      (o fallback : Text)
      → text_eq written o ≡ false
      → d.read_or t.config (key o) fallback ≡ d.read_or s.config (key o) fallback
  read_or_other o fallback differs =
      laws.read_or_lem t.config (key o) fallback
      ∙ ap (λ v. shown_or fallback v) (read_other o differs)
      ∙ sym (laws.read_or_lem s.config (key o) fallback)

  pub option_or_written :
      (fallback : Text) → option_or u d key written fallback t ≡ ok (shown_or fallback value)
  option_or_written fallback = ap ok (
      laws.read_or_lem t.config (key written) fallback
      ∙ ap (λ v. shown_or fallback v)
          (read_after written
            ∙ ap (λ b. if b then value else d.read s.config (key written)) (text_eq_refl written)))

  pub option_or_other :
      (o fallback : Text)
      → text_eq written o ≡ false
      → option_or u d key o fallback t ≡ option_or u d key o fallback s
  option_or_other o fallback differs = ap ok (read_or_other o fallback differs)

  pub time_stamp_other :
      (o : Text) → text_eq written o ≡ false → time_stamp u d key o t ≡ time_stamp u d key o s
  time_stamp_other o differs = ap (λ v. some (d.time_utc_format (strtol v))) (read_other o differs)

  pub log_reference_other :
      (o fallback : Text)
      → text_eq written o ≡ false
      → t.existing ≡ s.existing
      → log_reference u d key o fallback t ≡ log_reference u d key o fallback s
  log_reference_other o fallback differs same =
      ap (λ path. ok (reference (t.existing path) path)) (read_or_other o fallback differs)
      ∙ ap (λ (e : Text → Bool). ok (reference (e path_before) path_before)) same
    where
      path_before : Text
      path_before = d.read_or s.config (key o) fallback

      reference : Bool → Text → Text
      reference there path =
          if there
          then d.get_references (codes "Device.DeviceInfo.VendorLogFile.") (codes "Name")
              (file_uri path)
          else []

-- A log file that is moved without a fault leaves the new path in UCI.
pub config-move_log :
    (u : Uci) (lib : ParamLib) (key : Text → Key) (old value : Text) (s : Params u)
    → lib.fault_9007 ≢ 0
    → (move_log u lib key old value s).0 ≡ 0
    → (move_log u lib key old value s).1.config ≡ u.set s.config (key (codes "file_path")) value
config-move_log u lib key old value s fault ok = elim (Bool-cases (s.existing old)) [
  | inl e ↦ elim (Bool-cases (lib.rename old value)) [
    | inl r ↦ rw (e, r) refl
    | inr r ↦ absurd (fault (sym (moved e r) ∙ ok))
  ]
  | inr e ↦ rw e refl
]
  where
    moved :
        s.existing old ≡ true
        → lib.rename old value ≡ false
        → (move_log u lib key old value s).0 ≡ lib.fault_9007
    moved e r = rw (e, r) refl

abbrev pub bit_text : Bool → Text
bit_text b = if b then codes "1" else codes "0"

pub shown_bit : (fallback : Text) (b : Bool) → shown_or fallback (bit_text b) ≡ bit_text b
shown_bit fallback true = refl
shown_bit fallback false = refl
