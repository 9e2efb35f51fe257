-- ===== src/Reboots/Params.antt =====
-- src/reboots.c: the setter and the commands of Device.DeviceInfo.Reboots.
use sysmngr.Prelude.{
  ℕ, zero, ◌+◌, Bool, Option, none, some, List, [], ◌∷◌, ltb, if◌then◌else◌, Text, codes, length,
}
use sysmngr.Prelude.Int.{ℤ, pos, pos_part, ◌-ℤ◌, ltb_ℤ}
use sysmngr.Libc.{strtol, to_int}
use sysmngr.Uci.{Uci}
use sysmngr.Memory.Params.{Action, valuecheck, valueset}
use sysmngr.Reboots.{sysmngr_pkg, reboot_type, reboots_key, entry_limit}

module _ (u : Uci) where
  -- The data model deletes a section and does not look at the result.
  abbrev pub delete_or_keep : u.Config → Text → u.Config
  delete_or_keep c n = elim (u.delete c sysmngr_pkg n) [ none ↦ c | some c' ↦ c' ]

  abbrev pub delete_all : List Text → u.Config → u.Config
  delete_all [] c = c
  delete_all (n ∷ ns) c = delete_all ns (delete_or_keep c n)

  abbrev pub delete_first : ℕ → ℕ → List Text → u.Config → u.Config
  delete_first idx to_delete [] c = c
  delete_first idx to_delete (n ∷ ns) c =
      delete_first (idx + 1) to_delete ns (if ltb idx to_delete then delete_or_keep c n else c)

  unfoldable pub remove_all_reboots : u.Config → u.Config
  remove_all_reboots c = delete_all (u.sections c sysmngr_pkg reboot_type) c

  abbrev pub trim_entries : ℤ → u.Config → u.Config
  trim_entries (pos zero) c = delete_all (u.sections c sysmngr_pkg reboot_type) c
  trim_entries max_entries c =
      let names = u.sections c sysmngr_pkg reboot_type in
      let to_delete = pos (length names) -ℤ entry_limit max_entries in
      if ltb_ℤ (pos 0) to_delete then delete_first 0 (pos_part to_delete) names c else c

  -- VALUESET: DM_STRTOL is read as strtol, and narrowed to an int.
  unfoldable pub set_max_reboot_entries : Text → u.Config → u.Config
  set_max_reboot_entries value c =
      u.set (trim_entries (to_int (strtol value)) c) (reboots_key (codes "max_reboot_entries"))
        value

  -- bbfdm_validate_int and the fault code are those of libbbfdm.
  unfoldable set_max_entries :
      (validate_int : Option Text → Option Text → Text → Bool) (fault_9007 : ℕ)
      → Action
      → Text
      → u.Config
      → ℕ × u.Config
  unfolding set_max_reboot_entries
  set_max_entries validate_int fault_9007 valuecheck value c =
      (if validate_int (some (codes "-1")) none value then 0 else fault_9007, c)
  set_max_entries validate_int fault_9007 valueset value c = (0, set_max_reboot_entries value c)

  -- Remove() of the entry whose section has the name.
  unfoldable pub remove_reboot : Text → u.Config → u.Config
  remove_reboot name c = delete_or_keep c name
