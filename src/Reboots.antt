-- ===== src/Reboots.antt =====
-- src/reboots.c: the counters of boots, the list of reboot sections and the retries that wait for the
-- reset reason. UCI is the parameter `u`. `lib` holds what libbbfdm and the calendar of libc do.
pub mod Params
pub mod Increment
pub mod Holds
pub mod Counters
pub mod Entries
pub mod Register
pub mod Trim
pub mod Retry
pub mod Values
pub mod Reason
pub mod Shown
use sysmngr.Prelude.{
  ℕ, zero, ◌+◌, ◌*◌, Bool, true, false, Option, none, some, List, [], ◌∷◌, ◌++◌, ltb, leb,
  if◌then◌else◌, Text, codes, ◌>>=◌, text_eq, strstr, strchr, is_empty, snprintf_s, length, drop,
}
use sysmngr.Prelude.Int.{ℤ, pos, pos_part, ◌+ℤ◌, ◌-ℤ◌, ltb_ℤ}
use sysmngr.Libc.{strtol, to_int, decimal_ℤ, fgets_lines}
use sysmngr.Uci.{Uci, Key}

abbrev pub reboot_max_retries : ℕ
reboot_max_retries = 15

abbrev pub reboot_retry_delay : ℕ
reboot_retry_delay = 3

abbrev pub reboot_max_entries : ℕ
reboot_max_entries = 32

abbrev pub sysmngr_pkg : Text
sysmngr_pkg = codes "sysmngr"

abbrev pub reboot_type : Text
reboot_type = codes "reboot"

-- An option of the section sysmngr.reboots.
abbrev pub reboots_key : Text → Key
reboots_key o = (codes "sysmngr", codes "reboots", o)

-- Code that is not in the repository, or the calendar of libc.
pub record BootLib : Type 0 where
  -- remove_new_line and then strip_lead_trail_whitespace.
  pub strip : Text → Text
  -- strftime of gmtime, "%Y-%m-%dT%H:%M:%SZ", into a buffer of the size.
  pub utc_time : ℕ → ℤ → Text

-- What one run of the boot action reads: the file /var/reset_reason, the clock and the uptime.
pub record Boot : Type 0 where
  pub reason_exists : Bool
  -- none if fopen fails.
  pub reason_file : Option Text
  pub now : ℤ
  pub uptime : ℤ

-- What the file keeps: UCI, the lock file, g_retry_count and the pending reboot_timer.
pub record State (u : Uci) : Type 0 where
  pub config : u.Config
  pub locked : Bool
  pub retry_count : ℕ
  pub timer : Option ℕ

module _ (lib : BootLib) where
  -- The text after the colon, and nothing where no colon is.
  abbrev pub after_colon : Option Text → Text
  after_colon none = []
  after_colon (some p) = drop 2 p

  abbrev pub find_option : Text → ℕ → List Text → Text
  find_option name size [] = []
  find_option name size (raw ∷ rest) =
      let line = lib.strip raw in
      if strstr line name
      then snprintf_s size (after_colon (strchr line b':'))
      else find_option name size rest

  -- The buffer is empty if the file is not there or has no line with the name.
  abbrev pub option_of_file : Text → ℕ → Option Text → Text
  option_of_file name size none = []
  option_of_file name size (some file) = find_option name size (fgets_lines 256 file)

  unfoldable pub get_boot_option_value : Text → ℕ → Boot → Text
  get_boot_option_value name size boot = option_of_file name size boot.reason_file

  unfoldable pub check_valid_reset_reason_file : Boot → Bool
  check_valid_reset_reason_file boot =
      if boot.reason_exists
      then (if is_empty (get_boot_option_value (codes "reason") 32 boot) then false else true)
      else false

unfoldable pub boot_reason_message : Text → Text → Text
boot_reason_message trigger reason =
    if is_empty trigger
    then (if is_empty reason
        then codes "Unknown"
        else if text_eq reason (codes "POR_RESET")
        then codes "POWER ON RESET"
        else reason)
    else if text_eq trigger (codes "defaultreset")
    then codes "FACTORY RESET"
    else if text_eq trigger (codes "upgrade")
    then codes "FIRMWARE UPGRADE"
    else trigger

unfoldable pub calculate_boot_time : BootLib → ℕ → Boot → Text
calculate_boot_time lib size boot = lib.utc_time size (boot.now -ℤ boot.uptime)

-- "reboot_%ld" in a buffer of 32 bytes.
unfoldable pub section_name : ℤ → Text
section_name now = snprintf_s 32 (codes "reboot_" ++ decimal_ℤ now)

-- A limit that is not positive stands for REBOOT_MAX_ENTRIES.
abbrev pub entry_limit : ℤ → ℤ
entry_limit max_entries = if ltb_ℤ (pos 0) max_entries then max_entries else pos reboot_max_entries

module _ (u : Uci) where
  unfoldable pub reset_option_counter : Text → Text → u.Config → u.Config
  reset_option_counter name value c = u.set c (reboots_key name) value

  -- The number that the boot action reads from a counter.
  unfoldable pub read_counter : Text → u.Config → ℤ
  read_counter name c = to_int (strtol (u.get c (reboots_key name) (codes "0") 16))

  unfoldable pub increment_option_counter : Text → u.Config → u.Config
  increment_option_counter name c =
      u.set c (reboots_key name) (snprintf_s 16 (decimal_ℤ (read_counter name c +ℤ pos 1)))

  -- The second pass: sections go as long as `removed` is at most `to_remove`; none if one fails.
  abbrev pub remove_each : ℕ → ℕ → List Text → u.Config → Option u.Config
  remove_each to_remove removed [] c = some c
  remove_each to_remove removed (n ∷ ns) c =
      let skip = remove_each to_remove removed ns c in
      let next = u.delete c sysmngr_pkg n >>= λ c'. remove_each to_remove (removed + 1) ns c' in
      if leb removed to_remove then next else skip

  -- The deletions stay in a working copy until the commit.
  abbrev pub commit_or : u.Config → Option u.Config → u.Config
  commit_or c none = c
  commit_or c (some c') = if u.commit c' sysmngr_pkg then c' else c

  unfoldable pub delete_excess_reboot_sections : ℤ → u.Config → u.Config
  delete_excess_reboot_sections max_entries c =
      let names = u.sections c sysmngr_pkg reboot_type in
      let to_remove = pos (length names) -ℤ entry_limit max_entries in
      if ltb_ℤ to_remove (pos 0)
      then c
      else commit_or c (remove_each (pos_part to_remove) 0 names c)

  -- The cause is FactoryReset, or what was left in last_reboot_cause, which is then cleared.
  unfoldable pub set_cause : Text → Text → u.Config → u.Config
  set_cause trigger sec c =
      if text_eq trigger (codes "defaultreset")
      then u.set c (sysmngr_pkg, sec, codes "cause") (codes "FactoryReset")
      else u.set
          (u.set c (sysmngr_pkg, sec, codes "cause")
            (u.get c (reboots_key (codes "last_reboot_cause")) (codes "LocalReboot") 32))
          (reboots_key (codes "last_reboot_cause")) []

  unfoldable pub create_reboot_section : BootLib → Boot → Text → Text → u.Config → u.Config
  unfolding calculate_boot_time section_name
  create_reboot_section lib boot trigger reason c =
      let sec = section_name boot.now in
      let c1 = u.add c sysmngr_pkg sec reboot_type in
      let c2 = u.set c1 (sysmngr_pkg, sec, codes "time_stamp") (calculate_boot_time lib 21 boot) in
      let c3 =
        u.set c2 (sysmngr_pkg, sec, codes "firmware_updated")
          (if text_eq trigger (codes "upgrade") then codes "1" else codes "0") in
      let c4 = set_cause trigger sec c3 in
      u.set c4 (sysmngr_pkg, sec, codes "reason") (boot_reason_message trigger reason)

  -- The counters of one boot.
  unfoldable pub count_boot : Text → Text → u.Config → u.Config
  count_boot trigger reason c =
      let c1 =
        if text_eq trigger (codes "defaultreset")
        then reset_option_counter (codes "curr_version_boot_count") (codes "0")
            (reset_option_counter (codes "boot_count") (codes "1") c)
        else increment_option_counter (codes "curr_version_boot_count")
            (increment_option_counter (codes "boot_count") c) in
      let c2 =
        if strstr reason (codes "watchdog")
        then increment_option_counter (codes "watchdog_boot_count") c1
        else c1 in
      if text_eq reason (codes "POR_RESET")
      then increment_option_counter (codes "cold_boot_count") c2
      else increment_option_counter (codes "warm_boot_count") c2

  unfoldable pub max_entries_option : u.Config → ℤ
  max_entries_option c =
      to_int (strtol (u.get c (reboots_key (codes "max_reboot_entries")) (codes "3") 16))

  -- A limit of 0 keeps no section.
  unfoldable pub record_boot : BootLib → Boot → Text → Text → ℤ → u.Config → u.Config
  record_boot lib boot trigger reason (pos zero) c = c
  record_boot lib boot trigger reason max_entries c =
      create_reboot_section lib boot trigger reason (delete_excess_reboot_sections max_entries c)

  unfoldable pub sysmngr_register_boot_action : BootLib → Boot → State u → State u
  sysmngr_register_boot_action lib boot s =
      let trigger = get_boot_option_value lib (codes "triggered") 32 boot in
      let reason = get_boot_option_value lib (codes "reason") 32 boot in
      let c = count_boot trigger reason s.config in
      if s.locked then s else record s {
        config = record_boot lib boot trigger reason (max_entries_option c) c;
        locked = true;
      }

  unfoldable pub sysmngr_reboots_init : BootLib → Boot → State u → State u
  sysmngr_reboots_init lib boot s =
      if s.locked
      then s
      else if check_valid_reset_reason_file lib boot
      then sysmngr_register_boot_action lib boot s
      else if ltb s.retry_count reboot_max_retries
      then record s { retry_count = s.retry_count + 1; timer = some (reboot_retry_delay * 1000) }
      else sysmngr_register_boot_action lib boot s

  -- uloop fires the pending timer, which starts the same function again.
  unfoldable pub reboot_check_timer : BootLib → Boot → State u → State u
  reboot_check_timer lib boot s = sysmngr_reboots_init lib boot (record s { timer = none })
