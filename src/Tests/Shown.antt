-- ===== src/Tests/Shown.antt =====
-- The theorem on the entry of a boot in src/reboots.c at a concrete boot.
use sysmngr.Prelude.{◌≡◌, refl, true, none, [], codes}
use sysmngr.Prelude.Int.{pos}
use sysmngr.Uci.Table.{table_uci, table_laws, empty_table}
use sysmngr.Reboots.{
  BootLib, Boot, section_name, create_reboot_section, calculate_boot_time, boot_reason_message,
}
use sysmngr.Reboots.Values.{get_time_stamp, get_firmware_updated, get_cause, get_reason}
use sysmngr.Reboots.Reason.{IsReason}
use sysmngr.Reboots.Shown.{create_reboot_section-shown}
use sysmngr.Tests.Values.{dm, dm_laws}

abbrev lib : BootLib
lib = record { strip = λ line. line; utc_time = λ size t. codes "2025-01-01T00:00:00Z" }

abbrev boot : Boot
boot = record { reason_exists = true; reason_file = none; now = pos 25; uptime = pos 5 }

create_reboot_section-shown_example :
    let sec = section_name (pos 25) in
    let after =
      create_reboot_section table_uci lib boot (codes "upgrade") (codes "POR_RESET") empty_table in
    (get_time_stamp table_uci dm sec after ≡ codes "2025-01-01T00:00:00Z")
    × (get_firmware_updated table_uci dm sec after ≡ codes "1")
    × (get_cause table_uci dm sec after ≡ codes "LocalReboot")
    × IsReason (codes "upgrade") (codes "POR_RESET") (get_reason table_uci dm sec after)
    × (get_time_stamp table_uci dm (codes "old") after ≡ [])
    × (get_firmware_updated table_uci dm (codes "old") after ≡ [])
    × (get_cause table_uci dm (codes "old") after ≡ [])
    × (get_reason table_uci dm (codes "old") after ≡ [])
unfolding calculate_boot_time boot_reason_message get_time_stamp get_firmware_updated get_cause
    get_reason
create_reboot_section-shown_example =
    create_reboot_section-shown table_uci table_laws dm dm_laws lib boot (codes "upgrade")
      (codes "POR_RESET") empty_table (codes "old") (unfold section_name in refl)
