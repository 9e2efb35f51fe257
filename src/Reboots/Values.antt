-- ===== src/Reboots/Values.antt =====
-- src/reboots.c: the instances of Reboot and what the parameters of Reboots read.
use sysmngr.Prelude.{ℕ, Bool, false, List, [], ◌∷◌, map, if◌then◌else◌, codes, Text}
use sysmngr.Prelude.Int.{ℤ}
use sysmngr.Libc.{decimal}
use sysmngr.Uci.{Uci}
use sysmngr.Memory.Params.{Action}
use sysmngr.DataModel.{DmLib}
use sysmngr.Reboots.{sysmngr_pkg, reboot_type, reboots_key}

module _ (u : Uci) (d : DmLib u) where
  -- An entry: the section of UCI, and the one of dmmap.
  abbrev pub Entry : Type 0
  Entry = Text × d.Dmmap

  -- `synchronize` and `handle_instance` are libbbfdm's; `stops` says where DM_LINK_INST_OBJ gives DM_STOP.
  abbrev pub link_entries :
      (handle_instance : d.Dmmap → Text) (stops : Text → Bool) → List Entry → List (Text × Entry)
  link_entries handle_instance stops [] = []
  link_entries handle_instance stops (p ∷ rest) =
      let inst = handle_instance p.1 in
      let more = link_entries handle_instance stops rest in
      if stops inst then (inst, p) ∷ [] else (inst, p) ∷ more

  unfoldable pub browse_reboot_inst :
      (synchronize : u.Config → Text → Text → List Entry) (handle_instance : d.Dmmap → Text)
      (stops : Text → Bool)
      → u.Config
      → List (Text × Entry)
  browse_reboot_inst synchronize handle_instance stops c =
      link_entries handle_instance stops (synchronize c sysmngr_pkg reboot_type)

  unfoldable pub get_boot_count : u.Config → Text
  get_boot_count c = d.read c (reboots_key (codes "boot_count"))

  unfoldable pub get_current_version_boot_count : u.Config → Text
  get_current_version_boot_count c = d.read c (reboots_key (codes "curr_version_boot_count"))

  unfoldable pub get_watchdog_boot_count : u.Config → Text
  get_watchdog_boot_count c = d.read c (reboots_key (codes "watchdog_boot_count"))

  unfoldable pub get_cold_boot_count : u.Config → Text
  get_cold_boot_count c = d.read c (reboots_key (codes "cold_boot_count"))

  unfoldable pub get_warm_boot_count : u.Config → Text
  get_warm_boot_count c = d.read c (reboots_key (codes "warm_boot_count"))

  unfoldable pub get_max_reboot_entries : u.Config → Text
  get_max_reboot_entries c = d.read_or c (reboots_key (codes "max_reboot_entries")) (codes "3")

  unfoldable pub get_number_of_entries :
      (synchronize : u.Config → Text → Text → List Entry) (handle_instance : d.Dmmap → Text)
      → u.Config
      → Text
  unfolding browse_reboot_inst
  get_number_of_entries synchronize handle_instance c = decimal (
      d.number_of_entries
        (map (λ i. i.0) (browse_reboot_inst synchronize handle_instance (λ inst. false) c)))

  unfoldable pub get_alias : Text → Entry → ℤ × Text
  get_alias instance_name p = d.get_alias p.1 (codes "reboot_alias") instance_name

  unfoldable pub set_alias : Action → Text → Text → Entry → ℕ × d.Dmmap
  set_alias action instance_name value p =
      d.set_alias action (codes "reboot_alias") instance_name value p.1

  -- The options of the section of an entry.
  unfoldable pub get_time_stamp : Text → u.Config → Text
  get_time_stamp sec c = d.read c (sysmngr_pkg, sec, codes "time_stamp")

  unfoldable pub get_firmware_updated : Text → u.Config → Text
  get_firmware_updated sec c = d.read c (sysmngr_pkg, sec, codes "firmware_updated")

  unfoldable pub get_cause : Text → u.Config → Text
  get_cause sec c = d.read c (sysmngr_pkg, sec, codes "cause")

  unfoldable pub get_reason : Text → u.Config → Text
  get_reason sec c = d.read c (sysmngr_pkg, sec, codes "reason")
