-- ===== src/Tests/Reboots.antt =====
-- The theorems on src/reboots.c at concrete boots, on a configuration held in memory.
use sysmngr.Prelude.{
  ◌+◌, ◌-◌, ◌≤◌, ◌≡◌, refl, true, false, none, some, [], ◌∷◌, ◌++◌, codes, arith, length, drop,
  snprintf_s,
}
use sysmngr.Prelude.Int.{pos}
use sysmngr.Libc.{strtol, to_int, signed_digits, digits_value}
use sysmngr.Uci.Table.{table_uci, table_laws, empty_table}
use sysmngr.Reboots.{
  Boot, BootLib, State, sysmngr_pkg, reboot_type, reboots_key, read_counter, count_boot,
  section_name, max_entries_option, sysmngr_register_boot_action, sysmngr_reboots_init,
}
use sysmngr.Reboots.Params.{set_max_reboot_entries}
use sysmngr.Reboots.Holds.{Counts, Holds, HasRoom, after_boot}
use sysmngr.Reboots.Counters.{count_boot-Holds}
use sysmngr.Reboots.Entries.{WritesSucceed, limit_of}
use sysmngr.Reboots.Register.{register-names}
use sysmngr.Reboots.Retry.{DoneIn, deciding_round, run_timers, reboots_init-completes}
use sysmngr.Reboots.Trim.{trimmed, set_max-names}

abbrev lib : BootLib
lib = record { strip = λ s. s; utc_time = λ n t. codes "1970-01-01T00:00:00Z" }

abbrev por_boot : Boot
por_boot = record {
  reason_exists = true;
  reason_file = some (codes "reason:POR_RESET");
  now = pos 7;
  uptime = pos 5;
}

abbrev no_counts : Counts
no_counts = record { boots = 0; version_boots = 0; watchdog = 0; cold = 0; warm = 0 }

abbrev state : State table_uci
state = record { config = empty_table; locked = false; retry_count = 14; timer = none }

table_works : WritesSucceed table_uci
table_works = record { deletes = λ c p s. (_, refl); commits = λ c p. refl }

empty-Holds : Holds table_uci empty_table no_counts
unfolding read_counter strtol to_int signed_digits digits_value
empty-Holds = record {
  boots_read = refl;
  version_read = refl;
  watchdog_read = refl;
  cold_read = refl;
  warm_read = refl;
}

no_counts-HasRoom : HasRoom no_counts
no_counts-HasRoom = record {
  boots_room = omega arith;
  version_room = omega arith;
  watchdog_room = omega arith;
  cold_room = omega arith;
  warm_room = omega arith;
}

count_boot_example :
    Holds table_uci
      (count_boot table_uci (codes "defaultreset") (codes "POR_RESET") empty_table)
      (after_boot (codes "defaultreset") (codes "POR_RESET") no_counts)
count_boot_example =
    count_boot-Holds table_uci table_laws (codes "defaultreset") (codes "POR_RESET") empty_table
      no_counts empty-Holds no_counts-HasRoom

limit_three : max_entries_option table_uci empty_table ≡ pos 3
unfolding max_entries_option strtol to_int signed_digits digits_value
limit_three = refl

register-names_example :
    let after = sysmngr_register_boot_action table_uci lib por_boot state in
    let names = table_uci.sections empty_table sysmngr_pkg reboot_type in
    let names' = table_uci.sections after.config sysmngr_pkg reboot_type in
    (after.locked ≡ true)
    × (names' ≡ drop (length names + 1 - limit_of (pos 3)) names ++ (section_name (pos 7) ∷ []))
    × (length names' ≤ limit_of (pos 3))
register-names_example =
    register-names table_uci table_laws table_works lib por_boot state (pos 3) refl limit_three
      (λ e. cc) refl

init-completes_example :
    DoneIn table_uci lib
      (deciding_round table_uci lib 1 por_boot (por_boot ∷ []))
      state
      (run_timers table_uci lib (por_boot ∷ []) (sysmngr_reboots_init table_uci lib por_boot state))
init-completes_example =
    reboots_init-completes table_uci lib 1 por_boot (por_boot ∷ []) state refl refl refl
      (omega arith)

set_max-names_example :
    let c' = set_max_reboot_entries table_uci (codes "2") empty_table in
    let m = to_int (strtol (codes "2")) in
    (table_uci.sections c' sysmngr_pkg reboot_type ≡ trimmed m [])
    × (length (table_uci.sections c' sysmngr_pkg reboot_type) ≤ limit_of m)
    × (table_uci.get c' (reboots_key (codes "max_reboot_entries")) (codes "3") 16
        ≡ snprintf_s 16 (codes "2"))
set_max-names_example = set_max-names table_uci table_laws table_works (codes "2") empty_table refl
