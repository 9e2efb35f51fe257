-- ===== src/Reboots/Holds.antt =====
-- A configuration that holds the numbers of the five counters, and what each counting does to it.
use sysmngr.Prelude.{
  ℕ, ◌+◌, ◌^◌, ◌<◌, ◌≡◌, ◌∙◌, if◌then◌else◌, arith, Text, codes, text_eq, strstr, snprintf_s,
}
use sysmngr.Prelude.Int.{pos}
use sysmngr.Libc.{decimal}
use sysmngr.Uci.{Uci, UciLaws}
use sysmngr.Reboots.{reboots_key, reset_option_counter, read_counter, increment_option_counter}
use sysmngr.Reboots.Increment.{read_counter-set, read_counter-increment}

-- The five counters as numbers, and what one boot should make of them.
pub record Counts : Type 0 where
  pub boots : ℕ
  pub version_boots : ℕ
  pub watchdog : ℕ
  pub cold : ℕ
  pub warm : ℕ

abbrev pub after_boot : Text → Text → Counts → Counts
after_boot trigger reason k = record {
  boots = if text_eq trigger (codes "defaultreset") then 1 else k.boots + 1;
  version_boots = if text_eq trigger (codes "defaultreset") then 0 else k.version_boots + 1;
  watchdog = if strstr reason (codes "watchdog") then k.watchdog + 1 else k.watchdog;
  cold = if text_eq reason (codes "POR_RESET") then k.cold + 1 else k.cold;
  warm = if text_eq reason (codes "POR_RESET") then k.warm else k.warm + 1;
}

-- The room that an int leaves above each counter.
pub record HasRoom (k : Counts) : Type 0 where
  pub boots_room : k.boots + 1 < 2 ^ 31
  pub version_room : k.version_boots + 1 < 2 ^ 31
  pub watchdog_room : k.watchdog + 1 < 2 ^ 31
  pub cold_room : k.cold + 1 < 2 ^ 31
  pub warm_room : k.warm + 1 < 2 ^ 31

-- The configuration holds these numbers.
pub record Holds (u : Uci) (c : u.Config) (k : Counts) : Type 0 where
  pub boots_read : read_counter u (codes "boot_count") c ≡ pos k.boots
  pub version_read : read_counter u (codes "curr_version_boot_count") c ≡ pos k.version_boots
  pub watchdog_read : read_counter u (codes "watchdog_boot_count") c ≡ pos k.watchdog
  pub cold_read : read_counter u (codes "cold_boot_count") c ≡ pos k.cold
  pub warm_read : read_counter u (codes "warm_boot_count") c ≡ pos k.warm

module _ (u : Uci) (laws : UciLaws u) (k : Counts) (c : u.Config) (h : Holds u c k) where
  pub Holds-factory :
      Holds u
        (reset_option_counter u
          (codes "curr_version_boot_count")
          (codes "0")
          (reset_option_counter u (codes "boot_count") (codes "1") c))
        (record k { boots = 1; version_boots = 0 })
  unfolding reset_option_counter decimal
  Holds-factory =
      let c1 = u.set c (reboots_key (codes "boot_count")) (snprintf_s 16 (decimal 1)) in
      let keep =
        λ (other : Text). read_counter-set u laws (codes "boot_count") other 1 c (omega arith) in
      let then_keep = λ (other : Text).
        read_counter-set u laws (codes "curr_version_boot_count") other 0 c1 (omega arith) in
      record {
        boots_read = then_keep (codes "boot_count") ∙ keep (codes "boot_count");
        version_read = then_keep (codes "curr_version_boot_count");
        watchdog_read =
            then_keep (codes "watchdog_boot_count")
            ∙ keep (codes "watchdog_boot_count")
            ∙ h.watchdog_read;
        cold_read =
            then_keep (codes "cold_boot_count") ∙ keep (codes "cold_boot_count") ∙ h.cold_read;
        warm_read =
            then_keep (codes "warm_boot_count") ∙ keep (codes "warm_boot_count") ∙ h.warm_read;
      }

  pub Holds-boots :
      k.boots + 1 < 2 ^ 31
      → Holds u
          (increment_option_counter u (codes "boot_count") c)
          (record k { boots = k.boots + 1 })
  Holds-boots lt =
      let keep = λ (other : Text).
        read_counter-increment u laws (codes "boot_count") other k.boots c h.boots_read lt in
      record {
        boots_read = keep (codes "boot_count");
        version_read = keep (codes "curr_version_boot_count") ∙ h.version_read;
        watchdog_read = keep (codes "watchdog_boot_count") ∙ h.watchdog_read;
        cold_read = keep (codes "cold_boot_count") ∙ h.cold_read;
        warm_read = keep (codes "warm_boot_count") ∙ h.warm_read;
      }

  pub Holds-version :
      k.version_boots + 1 < 2 ^ 31
      → Holds u
          (increment_option_counter u (codes "curr_version_boot_count") c)
          (record k { version_boots = k.version_boots + 1 })
  Holds-version lt =
      let keep = λ (other : Text).
        read_counter-increment u laws (codes "curr_version_boot_count") other k.version_boots c
          h.version_read lt in
      record {
        boots_read = keep (codes "boot_count") ∙ h.boots_read;
        version_read = keep (codes "curr_version_boot_count");
        watchdog_read = keep (codes "watchdog_boot_count") ∙ h.watchdog_read;
        cold_read = keep (codes "cold_boot_count") ∙ h.cold_read;
        warm_read = keep (codes "warm_boot_count") ∙ h.warm_read;
      }

  pub Holds-watchdog :
      k.watchdog + 1 < 2 ^ 31
      → Holds u
          (increment_option_counter u (codes "watchdog_boot_count") c)
          (record k { watchdog = k.watchdog + 1 })
  Holds-watchdog lt =
      let keep = λ (other : Text).
        read_counter-increment u laws (codes "watchdog_boot_count") other k.watchdog c
          h.watchdog_read lt in
      record {
        boots_read = keep (codes "boot_count") ∙ h.boots_read;
        version_read = keep (codes "curr_version_boot_count") ∙ h.version_read;
        watchdog_read = keep (codes "watchdog_boot_count");
        cold_read = keep (codes "cold_boot_count") ∙ h.cold_read;
        warm_read = keep (codes "warm_boot_count") ∙ h.warm_read;
      }

  pub Holds-cold :
      k.cold + 1 < 2 ^ 31
      → Holds u
          (increment_option_counter u (codes "cold_boot_count") c)
          (record k { cold = k.cold + 1 })
  Holds-cold lt =
      let keep = λ (other : Text).
        read_counter-increment u laws (codes "cold_boot_count") other k.cold c h.cold_read lt in
      record {
        boots_read = keep (codes "boot_count") ∙ h.boots_read;
        version_read = keep (codes "curr_version_boot_count") ∙ h.version_read;
        watchdog_read = keep (codes "watchdog_boot_count") ∙ h.watchdog_read;
        cold_read = keep (codes "cold_boot_count");
        warm_read = keep (codes "warm_boot_count") ∙ h.warm_read;
      }

  pub Holds-warm :
      k.warm + 1 < 2 ^ 31
      → Holds u
          (increment_option_counter u (codes "warm_boot_count") c)
          (record k { warm = k.warm + 1 })
  Holds-warm lt =
      let keep = λ (other : Text).
        read_counter-increment u laws (codes "warm_boot_count") other k.warm c h.warm_read lt in
      record {
        boots_read = keep (codes "boot_count") ∙ h.boots_read;
        version_read = keep (codes "curr_version_boot_count") ∙ h.version_read;
        watchdog_read = keep (codes "watchdog_boot_count") ∙ h.watchdog_read;
        cold_read = keep (codes "cold_boot_count") ∙ h.cold_read;
        warm_read = keep (codes "warm_boot_count");
      }
