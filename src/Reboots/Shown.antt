-- ===== src/Reboots/Shown.antt =====
-- src/reboots.c: the entry that a boot leaves, as the data model shows it.
use sysmngr.Prelude.{
  ◌≡◌, refl, sym, ap, ◌∙◌, subst, Bool, true, false, ◌&&◌, Bool-cases, inl, inr, [], if◌then◌else◌,
  codes, text_eq, text_eq_refl, Text,
}
use sysmngr.Prelude.Int.{◌-ℤ◌}
use sysmngr.Uci.{Uci, UciLaws, Key}
use sysmngr.DataModel.{DmLib, DmLaws}
use sysmngr.Reboots.{
  BootLib, Boot, sysmngr_pkg, reboot_type, reboots_key, section_name, set_cause,
  create_reboot_section, calculate_boot_time, boot_reason_message,
}
use sysmngr.Reboots.Reason.{IsReason, message-IsReason}
use sysmngr.Reboots.Values.{get_time_stamp, get_firmware_updated, get_cause, get_reason}

and_false : (b c : Bool) → c ≡ false → (b && c) ≡ false
and_false true c h = h
and_false false c h = refl

-- What the cause of a boot is recorded as: `last` is what the boot before it left.
abbrev pub cause_of : Text → Text → Text
cause_of trigger last =
    if text_eq trigger (codes "defaultreset") then codes "FactoryReset" else last

module _ (u : Uci) (laws : UciLaws u) (d : DmLib u) (dm : DmLaws u d) where
  abbrev at : Text → Text → Key
  at sec o = (sysmngr_pkg, sec, o)

  hit : (c : u.Config) (s o v : Text) → d.read (u.set c (at s o) v) (at s o) ≡ v
  hit c s o v = dm.read-set c (at s o) (at s o) v ∙ rw (text_eq_refl s, text_eq_refl o) refl

  other_option :
      (c : u.Config) (s o t p v : Text)
      → text_eq o p ≡ false
      → d.read (u.set c (at s o) v) (at t p) ≡ d.read c (at t p)
  other_option c s o t p v h =
      dm.read-set c (at s o) (at t p) v
      ∙ ap (λ b. if b then v else d.read c (at t p)) (and_false (text_eq s t) (text_eq o p) h)

  other_section :
      (c : u.Config) (s o t p v : Text)
      → text_eq s t ≡ false
      → d.read (u.set c (at s o) v) (at t p) ≡ d.read c (at t p)
  other_section c s o t p v h = dm.read-set c (at s o) (at t p) v ∙ rw h refl

  set_cause-other_option :
      (trigger s t p : Text) (c : u.Config)
      → text_eq (codes "cause") p ≡ false
      → text_eq (codes "last_reboot_cause") p ≡ false
      → d.read (set_cause u trigger s c) (at t p) ≡ d.read c (at t p)
  unfolding set_cause
  set_cause-other_option trigger s t p c h k =
      elim (Bool-cases (text_eq trigger (codes "defaultreset"))) [
        | inl e ↦ rw e (other_option c s (codes "cause") t p _ h)
        | inr e ↦ rw e (
            other_option _ (codes "reboots") (codes "last_reboot_cause") t p [] k
            ∙ other_option c s (codes "cause") t p _ h)
      ]

  set_cause-other_section :
      (trigger s t p : Text) (c : u.Config)
      → text_eq s t ≡ false
      → text_eq (codes "last_reboot_cause") p ≡ false
      → d.read (set_cause u trigger s c) (at t p) ≡ d.read c (at t p)
  unfolding set_cause
  set_cause-other_section trigger s t p c h k =
      elim (Bool-cases (text_eq trigger (codes "defaultreset"))) [
        | inl e ↦ rw e (other_section c s (codes "cause") t p _ h)
        | inr e ↦ rw e (
            other_option _ (codes "reboots") (codes "last_reboot_cause") t p [] k
            ∙ other_section c s (codes "cause") t p _ h)
      ]

  set_cause-cause :
      (trigger s : Text) (c : u.Config)
      → d.read (set_cause u trigger s c) (at s (codes "cause"))
        ≡ cause_of trigger
            (u.get c (reboots_key (codes "last_reboot_cause")) (codes "LocalReboot") 32)
  unfolding set_cause
  set_cause-cause trigger s c = elim (Bool-cases (text_eq trigger (codes "defaultreset"))) [
    | inl e ↦ rw e (hit c s (codes "cause") (codes "FactoryReset"))
    | inr e ↦ rw e (
        other_option _ (codes "reboots") (codes "last_reboot_cause") s (codes "cause") [] refl
        ∙ hit c s (codes "cause") _)
  ]

  -- The options that the boot writes before do not disturb what the last one left.
  last_kept :
      (c : u.Config) (s o v : Text)
      → text_eq o (codes "last_reboot_cause") ≡ false
      → u.get
          (u.set c (at s o) v)
          (reboots_key (codes "last_reboot_cause"))
          (codes "LocalReboot")
          32
        ≡ u.get c (reboots_key (codes "last_reboot_cause")) (codes "LocalReboot") 32
  last_kept c s o v h =
      laws.get-set c (at s o) (reboots_key (codes "last_reboot_cause")) v (codes "LocalReboot") 32
      ∙ rw (and_false (text_eq s (codes "reboots")) _ h) refl

  module _ (lib : BootLib) (boot : Boot) (trigger reason : Text) (c : u.Config) where
    abbrev sec : Text
    sec = section_name boot.now

    abbrev after : u.Config
    after = create_reboot_section u lib boot trigger reason c

    abbrev updated : Text
    updated = if text_eq trigger (codes "upgrade") then codes "1" else codes "0"

    -- The configurations between the writes.
    abbrev added : u.Config
    added = u.add c sysmngr_pkg sec reboot_type

    abbrev stamped : u.Config
    stamped = u.set added (at sec (codes "time_stamp")) (calculate_boot_time lib 21 boot)

    abbrev marked : u.Config
    marked = u.set stamped (at sec (codes "firmware_updated")) updated

    new_stamp : get_time_stamp u d sec after ≡ lib.utc_time 21 (boot.now -ℤ boot.uptime)
    unfolding get_time_stamp create_reboot_section calculate_boot_time
    new_stamp =
        other_option _ sec (codes "reason") sec (codes "time_stamp") _ refl
        ∙ set_cause-other_option trigger sec sec (codes "time_stamp") marked refl refl
        ∙ other_option stamped sec (codes "firmware_updated") sec (codes "time_stamp") updated refl
        ∙ hit added sec (codes "time_stamp") _

    new_updated : get_firmware_updated u d sec after ≡ updated
    unfolding get_firmware_updated create_reboot_section
    new_updated =
        other_option _ sec (codes "reason") sec (codes "firmware_updated") _ refl
        ∙ set_cause-other_option trigger sec sec (codes "firmware_updated") marked refl refl
        ∙ hit stamped sec (codes "firmware_updated") updated

    new_cause :
        get_cause u d sec after
        ≡ cause_of trigger
            (u.get c (reboots_key (codes "last_reboot_cause")) (codes "LocalReboot") 32)
    unfolding get_cause create_reboot_section
    new_cause =
        other_option _ sec (codes "reason") sec (codes "cause") _ refl
        ∙ set_cause-cause trigger sec marked
        ∙ ap (cause_of trigger) (
            last_kept stamped sec (codes "firmware_updated") updated refl
            ∙ last_kept added sec (codes "time_stamp") _ refl
            ∙ laws.get-add c sysmngr_pkg sec reboot_type (reboots_key (codes "last_reboot_cause"))
                (codes "LocalReboot") 32)

    new_reason : get_reason u d sec after ≡ boot_reason_message trigger reason
    unfolding get_reason create_reboot_section
    new_reason = hit _ sec (codes "reason") _

    old_option :
        (t p : Text)
        → text_eq sec t ≡ false
        → text_eq (codes "last_reboot_cause") p ≡ false
        → d.read after (at t p) ≡ d.read c (at t p)
    unfolding create_reboot_section
    old_option t p h k =
        other_section _ sec (codes "reason") t p _ h
        ∙ set_cause-other_section trigger sec t p marked h k
        ∙ other_section stamped sec (codes "firmware_updated") t p updated h
        ∙ other_section added sec (codes "time_stamp") t p _ h
        ∙ dm.read-add c sysmngr_pkg sec reboot_type (at t p)

    -- The entry that a boot adds shows in UTC the time that the uptime lies before now, whether it was an upgrade,
    -- FactoryReset or else the cause that was left, and as its reason what IsReason says: FACTORY RESET,
    -- FIRMWARE UPGRADE or another trigger, and without a trigger POWER ON RESET for the marker POR_RESET, another
    -- marker as it is, and Unknown for none. An entry with another name shows all four as before.
    pub create_reboot_section-shown :
        (other : Text)
        → text_eq (section_name boot.now) other ≡ false
        → let sec = section_name boot.now in
          let after = create_reboot_section u lib boot trigger reason c in
          (get_time_stamp u d sec after ≡ lib.utc_time 21 (boot.now -ℤ boot.uptime))
          × (get_firmware_updated u d sec after
              ≡ (if text_eq trigger (codes "upgrade") then codes "1" else codes "0"))
          × (get_cause u d sec after
              ≡ cause_of trigger
                  (u.get c (reboots_key (codes "last_reboot_cause")) (codes "LocalReboot") 32))
          × IsReason trigger reason (get_reason u d sec after)
          × (get_time_stamp u d other after ≡ get_time_stamp u d other c)
          × (get_firmware_updated u d other after ≡ get_firmware_updated u d other c)
          × (get_cause u d other after ≡ get_cause u d other c)
          × (get_reason u d other after ≡ get_reason u d other c)
    unfolding get_time_stamp get_firmware_updated get_cause get_reason
    create_reboot_section-shown other h = (
      new_stamp,
      new_updated,
      new_cause,
      subst (IsReason trigger reason) (sym new_reason) (message-IsReason trigger reason),
      old_option other (codes "time_stamp") h refl,
      old_option other (codes "firmware_updated") h refl,
      old_option other (codes "cause") h refl,
      old_option other (codes "reason") h refl,
    )
