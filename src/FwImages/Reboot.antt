-- ===== src/FwImages/Reboot.antt =====
-- src/fw_images.c: the forked task that reboots the device, and the cause that the next boots record.
use sysmngr.Prelude.{
  ℕ, ◌≡◌, refl, ap, ◌∙◌, Bool, true, false, ◌||◌, if◌then◌else◌, [], codes, text_eq, text_eq_refl,
  is_empty, snprintf_s, Text,
}
use sysmngr.Uci.{Uci, UciLaws, Key, key_eq}
use sysmngr.Reboots.{
  BootLib, Boot, reboot_type, calculate_boot_time, boot_reason_message, sysmngr_pkg, reboots_key,
  section_name, set_cause, create_reboot_section,
}

-- The configuration that the task leaves. `rpc_sys` and `system`: the call of that object reboots the device,
-- so that the task does not go on.
unfoldable pub exec_reboot : (u : Uci) → Bool → Bool → u.Config → u.Config
exec_reboot u rpc_sys system c =
    let c1 = u.set c (reboots_key (codes "last_reboot_cause")) (codes "RemoteReboot") in
    if rpc_sys
    then c1
    else if system
    then c1
    else u.set c1 (reboots_key (codes "last_reboot_cause")) []

module _ (u : Uci) (laws : UciLaws u) where
  abbrev pub last_cause : u.Config → Text
  last_cause c = u.get c (reboots_key (codes "last_reboot_cause")) (codes "LocalReboot") 32

  abbrev pub cause_key : Boot → Key
  cause_key boot = (sysmngr_pkg, section_name boot.now, codes "cause")

  -- The section is another one than reboots.
  other_section :
      (boot : Boot) (o p : Text)
      → key_eq (sysmngr_pkg, section_name boot.now, o) (reboots_key p) ≡ false
  unfolding section_name
  other_section boot o p = refl

  reboots_is_other :
      (boot : Boot) (o p : Text)
      → key_eq (reboots_key o) (sysmngr_pkg, section_name boot.now, p) ≡ false
  unfolding section_name
  reboots_is_other boot o p = refl

  set-other :
      (c : u.Config) (k j : Key) (v d : Text) (n : ℕ)
      → key_eq k j ≡ false
      → u.get (u.set c k v) j d n ≡ u.get c j d n
  set-other c k j v d n h = laws.get-set c k j v d n ∙ rw h refl

  set-same :
      (c : u.Config) (k : Key) (v d : Text) (n : ℕ)
      → key_eq k k ≡ true
      → u.get (u.set c k v) k d n ≡ (if is_empty v then snprintf_s n d else snprintf_s n v)
  set-same c k v d n h = laws.get-set c k k v d n ∙ rw h refl

  own_option :
      (boot : Boot) (o : Text)
      → key_eq (sysmngr_pkg, section_name boot.now, o) (sysmngr_pkg, section_name boot.now, o)
        ≡ true
  own_option boot o = rw (text_eq_refl (section_name boot.now), text_eq_refl o) refl

  reason_is_other :
      (boot : Boot)
      → key_eq (sysmngr_pkg, section_name boot.now, codes "reason") (cause_key boot) ≡ false
  reason_is_other boot = rw (text_eq_refl (section_name boot.now)) refl

  last-exec :
      (rpc_sys system : Bool) (c : u.Config)
      → last_cause (exec_reboot u rpc_sys system c)
        ≡ (if rpc_sys || system then codes "RemoteReboot" else codes "LocalReboot")
  unfolding exec_reboot
  last-exec true system c = set-same _ _ _ _ _ refl
  last-exec false true c = set-same _ _ _ _ _ refl
  last-exec false false c = set-same _ _ _ _ _ refl

  -- The configuration that set_cause meets.
  abbrev before_cause : BootLib → Boot → Text → u.Config → u.Config
  before_cause lib boot trigger c =
      u.set
        (u.set (u.add c sysmngr_pkg (section_name boot.now) reboot_type)
          (sysmngr_pkg, section_name boot.now, codes "time_stamp")
          (calculate_boot_time lib 21 boot))
        (sysmngr_pkg, section_name boot.now, codes "firmware_updated")
        (if text_eq trigger (codes "upgrade") then codes "1" else codes "0")

  last-before :
      (lib : BootLib) (boot : Boot) (trigger : Text) (c : u.Config)
      → last_cause (before_cause lib boot trigger c) ≡ last_cause c
  last-before lib boot trigger c =
      set-other _ _ _ _ _ _
        (other_section boot (codes "firmware_updated") (codes "last_reboot_cause"))
      ∙ set-other _ _ _ _ _ _ (other_section boot (codes "time_stamp") (codes "last_reboot_cause"))
      ∙ laws.get-add _ _ _ _ _ _ _

  -- The configuration that set_cause leaves without a factory reset.
  abbrev after_cause : BootLib → Boot → Text → u.Config → u.Config
  after_cause lib boot trigger c =
      u.set
        (u.set (before_cause lib boot trigger c) (cause_key boot)
          (last_cause (before_cause lib boot trigger c)))
        (reboots_key (codes "last_reboot_cause")) []

  set_cause-after :
      (trigger sec : Text) (c : u.Config)
      → text_eq trigger (codes "defaultreset") ≡ false
      → set_cause u trigger sec c
        ≡ u.set
            (u.set c (sysmngr_pkg, sec, codes "cause") (last_cause c))
            (reboots_key (codes "last_reboot_cause"))
            []
  unfolding set_cause
  set_cause-after trigger sec c h = rw h refl

  create-after :
      (lib : BootLib) (boot : Boot) (trigger reason : Text) (c : u.Config)
      → text_eq trigger (codes "defaultreset") ≡ false
      → create_reboot_section u lib boot trigger reason c
        ≡ u.set
            (after_cause lib boot trigger c)
            (sysmngr_pkg, section_name boot.now, codes "reason")
            (boot_reason_message trigger reason)
  unfolding create_reboot_section
  create-after lib boot trigger reason c h =
      ap
        (λ x.
          u.set x (sysmngr_pkg, section_name boot.now, codes "reason")
            (boot_reason_message trigger reason))
        (set_cause-after trigger (section_name boot.now) (before_cause lib boot trigger c) h)

  or_default : Text → Text
  or_default v = if is_empty v then snprintf_s 32 [] else snprintf_s 32 v

  cause-create :
      (lib : BootLib) (boot : Boot) (trigger reason : Text) (c : u.Config)
      → text_eq trigger (codes "defaultreset") ≡ false
      → u.get (create_reboot_section u lib boot trigger reason c) (cause_key boot) [] 32
        ≡ or_default (last_cause c)
  unfolding or_default
  cause-create lib boot trigger reason c h =
      ap (λ x. u.get x (cause_key boot) [] 32) (create-after lib boot trigger reason c h)
      ∙ set-other _ _ _ _ _ _ (reason_is_other boot)
      ∙ set-other _ _ _ _ _ _ (reboots_is_other boot (codes "last_reboot_cause") (codes "cause"))
      ∙ set-same _ _ _ _ _ (own_option boot (codes "cause"))
      ∙ ap or_default (last-before lib boot trigger c)

  last-create :
      (lib : BootLib) (boot : Boot) (trigger reason : Text) (c : u.Config)
      → text_eq trigger (codes "defaultreset") ≡ false
      → last_cause (create_reboot_section u lib boot trigger reason c) ≡ codes "LocalReboot"
  last-create lib boot trigger reason c h =
      ap last_cause (create-after lib boot trigger reason c h)
      ∙ set-other _ _ _ _ _ _ (other_section boot (codes "reason") (codes "last_reboot_cause"))
      ∙ set-same _ _ _ _ _ refl

  -- If neither boot is a factory reset, then the first boot after the task records the cause RemoteReboot if one
  -- of its calls rebooted the device and LocalReboot otherwise, and the boot after that records LocalReboot.
  pub next_boots-cause :
      (lib : BootLib) (boot boot' : Boot) (rpc_sys system : Bool)
      (trigger reason trigger' reason' : Text) (c : u.Config)
      → text_eq trigger (codes "defaultreset") ≡ false
      → text_eq trigger' (codes "defaultreset") ≡ false
      → let first =
          create_reboot_section u lib boot trigger reason (exec_reboot u rpc_sys system c) in
        let second = create_reboot_section u lib boot' trigger' reason' first in
        (u.get first (cause_key boot) [] 32
          ≡ (if rpc_sys || system then codes "RemoteReboot" else codes "LocalReboot"))
        × (u.get second (cause_key boot') [] 32 ≡ codes "LocalReboot")
  unfolding or_default
  next_boots-cause lib boot boot' rpc_sys system trigger reason trigger' reason' c h h' = (
    cause-create lib boot trigger reason (exec_reboot u rpc_sys system c) h
        ∙ ap or_default (last-exec rpc_sys system c)
        ∙ short (rpc_sys || system),
    cause-create lib boot' trigger' reason' _ h'
        ∙ ap or_default (last-create lib boot trigger reason (exec_reboot u rpc_sys system c) h),
  )
    where
      short :
          (x : Bool)
          → or_default (if x then codes "RemoteReboot" else codes "LocalReboot")
            ≡ (if x then codes "RemoteReboot" else codes "LocalReboot")
      short true = refl
      short false = refl
