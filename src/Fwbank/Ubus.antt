-- ===== src/Fwbank/Ubus.antt =====
-- src/fwbank.c: the sysupgrade event and the calls of the ubus object "fwbank".
use sysmngr.Prelude.{
  ℕ, zero, Bool, false, ◌&&◌, not, Option, none, some, ◌>>=◌, List, [], ◌∷◌, ◌++◌, if◌then◌else◌,
  codes, text_eq, get_or, snprintf_s,
}
use sysmngr.Prelude.Strings.{Text}
use sysmngr.Prelude.Int.{ℤ, pos, negsuc}
use sysmngr.Libc.{decimal}
use sysmngr.Memory.{bool_option}
use sysmngr.Fwbank.{
  Blob, Policy, Fork, Finish, Fwbank, send_reply, send, sysmngr_task_fork, init_global_fwbank_dump,
  fwbank_path, set_bootbank_policy, upgrade_policy,
}

-- How the loop over the event's attributes ends: with a return, with a break, or after the last one.
pub data Scan : Type 0 where
  returned : Scan
  refresh : Scan
  finished : Scan

module _ (b : Blob) where
  -- An attribute with neither name is passed over.
  abbrev pub scan_attr : Text → b.Attr → Scan → Scan
  scan_attr bank_id_str cur rest =
      if text_eq (b.name cur) (codes "bank_id") && not (text_eq (b.get_string cur) bank_id_str)
      then Scan.returned
      else if text_eq (b.name cur) (codes "status")
      then (if text_eq (b.get_string cur) (codes "Downloading")
          then Scan.returned
          else if text_eq (b.get_string cur) (codes "Available")
          then Scan.refresh
          else rest)
      else rest

  unfoldable pub scan_event : Text → List b.Attr → Scan
  scan_event bank_id_str [] = Scan.finished
  scan_event bank_id_str (cur ∷ msg) = scan_attr bank_id_str cur (scan_event bank_id_str msg)

  abbrev pub stop_listening : Fwbank b → Fwbank b
  stop_listening s = record s { event = record s.event { tm = none; registered = false } }

  unfoldable pub fwbank_listen_timeout : Fwbank b → Fwbank b
  fwbank_listen_timeout s = stop_listening s

  abbrev pub after_scan : Fork → Scan → Fwbank b → Fwbank b
  after_scan fork Scan.returned s = s
  after_scan fork Scan.refresh s = stop_listening (init_global_fwbank_dump b fork s).1
  after_scan fork Scan.finished s = stop_listening s

  -- none is a null message. The id is an unsigned int, so it is never below 0.
  unfoldable pub fwbank_receive_sysupgrade : Fork → Option (List b.Attr) → Fwbank b → Fwbank b
  unfolding scan_event
  fwbank_receive_sysupgrade fork none s = s
  fwbank_receive_sysupgrade fork (some msg) s =
      after_scan fork (scan_event (snprintf_s 16 (decimal s.event.band_id)) msg) s

  abbrev pub set_bootbank_cmd : ℕ → Text
  set_bootbank_cmd bank_id = snprintf_s 128 (
      codes "echo '{\"bank\":"
      ++ (decimal bank_id
          ++ (codes "}' | " ++ (fwbank_path ++ codes " call set_bootbank 2>/dev/null"))))

  unfoldable pub sysmngr_fwbank_set_bootbank : Fork → ℕ → Option ℕ → Fwbank b → ℤ × Fwbank b
  sysmngr_fwbank_set_bootbank fork bank_id req s =
      sysmngr_task_fork b fork (some Finish.set_bootbank) (set_bootbank_cmd bank_id) 10 req 0 s

  abbrev pub flag : Bool → Text
  flag x = if x then codes "1" else codes "0"

  abbrev pub upgrade_cmd : Text → Bool → ℕ → Bool → Text
  upgrade_cmd path auto_activate bank_id keep_settings = snprintf_s 1024 (
      codes "echo '{\"path\":\""
      ++ (path
          ++ (codes "\", \"auto_activate\":"
              ++ (flag auto_activate
                  ++ (codes ", \"bank\":"
                      ++ (decimal bank_id
                          ++ (codes ", \"keep_settings\":"
                              ++ (flag keep_settings
                                  ++ (codes "}' | "
                                      ++ (fwbank_path ++ codes " call upgrade 2>/dev/null"))))))))))

  -- A null path goes to "%s", which C does not define: none.
  unfoldable pub sysmngr_fwbank_upgrade :
      Fork → Option Text → Bool → ℕ → Bool → Option ℕ → Fwbank b → Option (ℤ × Fwbank b)
  sysmngr_fwbank_upgrade fork none auto_activate bank_id keep_settings req s = none
  sysmngr_fwbank_upgrade fork (some path) auto_activate bank_id keep_settings req s = some (
      sysmngr_task_fork b fork (some Finish.upgrade)
        (upgrade_cmd path auto_activate bank_id keep_settings) 10 req bank_id s)

  unfoldable pub dump_handler : ℕ → Fwbank b → ℤ × Fwbank b
  dump_handler req s = (pos 0, send b (send_reply (some req) s.output) s)

  -- A request that was not started is answered at once.
  abbrev pub reply_failure : ℕ → b.Attr → ℤ × Fwbank b → ℤ × Fwbank b
  reply_failure req a (pos zero, s) = (pos 0, s)
  reply_failure req a (_, s) = (pos 0, send b (send_reply (some req) (some (a ∷ []))) s)

  abbrev pub u32_of : Option b.Attr → ℕ
  u32_of none = 0
  u32_of (some a) = b.get_u32 a

  abbrev pub set_bootbank_parsed :
      Fork → ℕ → Option (List (Option b.Attr)) → Fwbank b → ℤ × Fwbank b
  set_bootbank_parsed fork req none s = (pos b.unknown_error, s)
  set_bootbank_parsed fork req (some tb) s =
      reply_failure req (b.add_u8 (codes "status") false)
        (sysmngr_fwbank_set_bootbank fork (u32_of (get_or tb 0 none)) (some req) s)

  unfoldable pub set_bootbank_handler : Fork → ℕ → List b.Attr → Fwbank b → ℤ × Fwbank b
  unfolding sysmngr_fwbank_set_bootbank
  set_bootbank_handler fork req msg s =
      set_bootbank_parsed fork req (b.parse set_bootbank_policy msg) s

  abbrev pub bool_of : Bool → Option b.Attr → Bool
  bool_of default none = default
  bool_of default (some a) = b.get_bool a

  abbrev pub string_of : Option b.Attr → Option Text
  string_of none = none
  string_of (some a) = some (b.get_string a)

  abbrev pub failure : ℕ → Option (ℤ × Fwbank b) → Option (ℤ × Fwbank b)
  failure req r = r >>= λ started.
      some (reply_failure req (b.add_string (codes "result") (codes "failure")) started)

  -- `keep_config` is what UCI holds in sysmngr.globals.keep_config, "1" if it holds nothing.
  abbrev pub upgrade_parsed :
      Fork → ℕ → Text → Option (List (Option b.Attr)) → Fwbank b → Option (ℤ × Fwbank b)
  upgrade_parsed fork req keep_config none s = some (pos b.unknown_error, s)
  upgrade_parsed fork req keep_config (some tb) s = failure req (
      sysmngr_fwbank_upgrade fork (string_of (get_or tb 0 none)) (bool_of false (get_or tb 1 none))
        (u32_of (get_or tb 2 none)) (bool_of (bool_option keep_config) (get_or tb 3 none))
        (some req) s)

  unfoldable pub upgrade_handler : Fork → ℕ → Text → List b.Attr → Fwbank b → Option (ℤ × Fwbank b)
  unfolding sysmngr_fwbank_upgrade
  upgrade_handler fork req keep_config msg s =
      upgrade_parsed fork req keep_config (b.parse upgrade_policy msg) s

-- The methods of the ubus object, with the policies of their messages; dump has none.
abbrev pub fwbank_methods : List (Text × Policy)
fwbank_methods =
    (codes "dump", [])
    ∷ (codes "set_bootbank", set_bootbank_policy)
    ∷ (codes "upgrade", upgrade_policy)
    ∷ []

-- `res` is the result of ubus_add_object.
unfoldable pub sysmngr_register_fwbank : (res : ℤ) → ℤ
sysmngr_register_fwbank (pos zero) = pos 0
sysmngr_register_fwbank res = negsuc 0
