-- ===== src/Reboots/Counters.antt =====
-- What one boot does to the counters.
use sysmngr.Prelude.{
  ◌+◌, ◌^◌, ◌<◌, Bool-cases, inl, inr, if◌then◌else◌, Text, codes, text_eq, strstr,
}
use sysmngr.Uci.{Uci, UciLaws}
use sysmngr.Reboots.{reset_option_counter, increment_option_counter, count_boot}
use sysmngr.Reboots.Holds.{
  Counts, after_boot, HasRoom, Holds, Holds-factory, Holds-boots, Holds-version, Holds-watchdog,
  Holds-cold, Holds-warm,
}

module _ (u : Uci) (laws : UciLaws u) (trigger reason : Text) where
  -- The three tests of the boot action, one after the other.
  first_counters : u.Config → u.Config
  unfolding reset_option_counter
  first_counters c =
      if text_eq trigger (codes "defaultreset")
      then reset_option_counter u (codes "curr_version_boot_count") (codes "0")
          (reset_option_counter u (codes "boot_count") (codes "1") c)
      else increment_option_counter u (codes "curr_version_boot_count")
          (increment_option_counter u (codes "boot_count") c)

  abbrev first_counts : Counts → Counts
  first_counts k = record k {
    boots = if text_eq trigger (codes "defaultreset") then 1 else k.boots + 1;
    version_boots = if text_eq trigger (codes "defaultreset") then 0 else k.version_boots + 1;
  }

  abbrev second_counts : Counts → Counts
  second_counts k = record k {
    watchdog = if strstr reason (codes "watchdog") then k.watchdog + 1 else k.watchdog;
  }

  Holds-first :
      (c : u.Config) (k : Counts)
      → Holds u c k
      → HasRoom k
      → Holds u (first_counters c) (first_counts k)
  unfolding first_counters
  Holds-first c k h room = elim (Bool-cases (text_eq trigger (codes "defaultreset"))) [
    | inl e ↦ rw e (Holds-factory u laws k c h)
    | inr e ↦ rw e (
        Holds-version u laws (record k { boots = k.boots + 1 }) _
          (Holds-boots u laws k c h room.boots_room) room.version_room)
  ]

  Holds-second :
      (c : u.Config) (k : Counts)
      → Holds u c k
      → k.watchdog + 1 < 2 ^ 31
      → Holds u
          (if strstr reason (codes "watchdog")
            then increment_option_counter u (codes "watchdog_boot_count") c
            else c)
          (second_counts k)
  Holds-second c k h room = elim (Bool-cases (strstr reason (codes "watchdog"))) [
    | inl e ↦ rw e (Holds-watchdog u laws k c h room)
    | inr e ↦ rw e h
  ]

  Holds-third :
      (c : u.Config) (k : Counts)
      → Holds u c k
      → k.cold + 1 < 2 ^ 31
      → k.warm + 1 < 2 ^ 31
      → Holds u
          (if text_eq reason (codes "POR_RESET")
            then increment_option_counter u (codes "cold_boot_count") c
            else increment_option_counter u (codes "warm_boot_count") c)
          (record k {
            cold = if text_eq reason (codes "POR_RESET") then k.cold + 1 else k.cold;
            warm = if text_eq reason (codes "POR_RESET") then k.warm else k.warm + 1;
          })
  Holds-third c k h cold_room warm_room = elim (Bool-cases (text_eq reason (codes "POR_RESET"))) [
    | inl e ↦ rw e (Holds-cold u laws k c h cold_room)
    | inr e ↦ rw e (Holds-warm u laws k c h warm_room)
  ]

  -- If the configuration holds five counters that an int can count further, then after the counting of
  -- a boot it holds these: a factory reset sets the boot counts to 1 and 0 and any other boot, one after an
  -- upgrade too, adds one to both, a reason that mentions "watchdog" adds one to the watchdog count, and exactly one of the
  -- cold and warm counts grows by one, the cold one if the reason is POR_RESET.
  pub count_boot-Holds :
      (c : u.Config) (k : Counts)
      → Holds u c k
      → HasRoom k
      → Holds u (count_boot u trigger reason c) (after_boot trigger reason k)
  unfolding count_boot first_counters
  count_boot-Holds c k h room =
      Holds-third _ (second_counts (first_counts k))
        (Holds-second (first_counters c) (first_counts k) (Holds-first c k h room)
          room.watchdog_room)
        room.cold_room room.warm_room
