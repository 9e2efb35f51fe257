-- ===== src/Tests/Network.antt =====
-- The theorems on src/network.c, and on the reboots across src/fw_images.c and src/reboots.c, at concrete inputs.
use sysmngr.Prelude.{◌≡◌, refl, true, false, none, some, [], codes}
use sysmngr.Prelude.Int.{pos}
use sysmngr.Uci.Table.{table_uci, table_laws, empty_table}
use sysmngr.Reboots.{BootLib, Boot, create_reboot_section}
use sysmngr.Network.{get_tcp_implementation, strtok_from}
use sysmngr.Network.Controls.{get_tcp_implementation-joined}
use sysmngr.FwImages.Reboot.{exec_reboot, cause_key, next_boots-cause}

get_tcp_implementation-joined_example :
    get_tcp_implementation (some (codes "cubic newreno")) ≡ some (codes "Cubic,Reno")
unfolding strtok_from
get_tcp_implementation-joined_example = get_tcp_implementation-joined (some (codes "cubic newreno"))

abbrev lib : BootLib
lib = record { strip = λ line. line; utc_time = λ size t. [] }

abbrev boot : Boot
boot = record { reason_exists = true; reason_file = none; now = pos 5; uptime = pos 0 }

abbrev later_boot : Boot
later_boot = record { reason_exists = true; reason_file = none; now = pos 9; uptime = pos 0 }

next_boots-cause_example :
    let first =
      create_reboot_section table_uci lib boot
        (codes "upgrade")
        []
        (exec_reboot table_uci false true empty_table) in
    let second = create_reboot_section table_uci lib later_boot [] [] first in
    (table_uci.get first (cause_key table_uci table_laws boot) [] 32 ≡ codes "RemoteReboot")
    × (table_uci.get second (cause_key table_uci table_laws later_boot) [] 32 ≡ codes "LocalReboot")
next_boots-cause_example =
    next_boots-cause table_uci table_laws lib boot later_boot false true (codes "upgrade") [] [] []
      empty_table refl refl
