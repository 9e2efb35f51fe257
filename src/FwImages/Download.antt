-- ===== src/FwImages/Download.antt =====
-- src/fw_images.c: the download of a firmware image, with its checks, the ubus calls and the wait for the
-- event sysupgrade. What the other programs answer is a record.
pub mod Acts
pub mod Outcome
pub mod Wait
use sysmngr.Prelude.{
  ℕ, ◌==◌, Bool, true, false, ◌&&◌, not, Option, none, some, List, [], ◌∷◌, ◌++◌, if◌then◌else◌,
  codes, text_eq, has_prefix, snprintf_s, ltb, ◌+◌, length,
}
use sysmngr.Prelude.Strings.{Text}
use sysmngr.Prelude.Int.{ℤ, pos, negsuc}
use sysmngr.Libc.{decimal_ℤ}
use sysmngr.Fwbank.{Blob}
use sysmngr.Utils.{
  Names, Message, ℤ_eq, validate_server_response_code, validate_file_system_size,
  validate_checksum_value, transfer_complete_event,
}

-- The input of Download(), and what the caller adds.
pub record Request : Type 0 where
  pub url : Text
  pub auto_activate : Text
  pub username : Text
  pub password : Text
  pub file_size : Text
  pub checksum_algorithm : Text
  pub checksum : Text
  pub bank_id : Text
  pub obj_path : Text
  pub command_key : Text
  pub keep : Text

-- What leaves the program, in order.
pub data Act : Type 0 where
  download_file : Text → Text → Text → Text → Act
  validate_firmware_image : Text → Act
  upgrade : Text → Text → Text → Text → Act
  exec_reboot : Act
  send_event : Message → Act
  remove : Text → Act

module _ (b : Blob) where
  -- The state of dmubus_receive_sysupgrade, and whether it ends the wait.
  abbrev pub receive_attr : Text → b.Attr → Bool → (Bool → Bool × Bool) → Bool × Bool
  receive_attr bank_id cur status rest =
      if text_eq (b.name cur) (codes "bank_id") && not (text_eq (b.get_string cur) bank_id)
      then (status, false)
      else if text_eq (b.name cur) (codes "status")
      then (if text_eq (b.get_string cur) (codes "Downloading")
          then (status, false)
          else rest (text_eq (b.get_string cur) (codes "Available")))
      else rest status

  -- The last attribute done, the wait ends.
  unfoldable pub dmubus_receive_sysupgrade : Text → List b.Attr → Bool → Bool × Bool
  dmubus_receive_sysupgrade bank_id [] status = (status, true)
  dmubus_receive_sysupgrade bank_id (cur ∷ msg) status =
      receive_attr bank_id cur status (dmubus_receive_sysupgrade bank_id msg)

  -- The events that come in within the 120 seconds; the status stays where the wait is not ended.
  unfoldable pub wait_for_event : Text → List (List b.Attr) → Bool → Bool
  unfolding dmubus_receive_sysupgrade
  wait_for_event bank_id [] status = status
  wait_for_event bank_id (msg ∷ msgs) status =
      let (status', ended) = dmubus_receive_sysupgrade bank_id msg status in
      let later = wait_for_event bank_id msgs status' in if ended then status' else later

  -- The answers of the file system, of the server and of the other daemons.
  pub record World : Type 0 where
    pub names : Names
    pub available : ℕ
    -- mkstemp: the name that the template becomes, none if it fails.
    pub mkstemp : Option Text
    -- The code, and what the path of the file is afterwards.
    pub download : Text → ℤ × Text
    pub digest : Text → Text → Option Text
    -- The text of "valid", none if the call gives no answer.
    pub validate_image : Text → Option Text
    -- The text of "result" of the call fwbank upgrade, none if it gives no answer.
    pub upgrade : Text → Option Text
    pub events : List (List b.Attr)
    pub exists : Text → Bool
    pub string_to_bool : Text → Bool
    -- The calendar's print of a time.
    pub print_time : ℤ → Text
    pub start_time : ℤ
    pub complete_time : ℤ

  -- Where the code goes to `end`: the result, the fault message, the time of completion, the path of the
  -- temporary file and what was done on the way.
  pub record Ended : Type 0 where
    pub res : ℤ
    pub fault_msg : Text
    pub completed : ℤ
    pub path : Text
    pub acts : List Act

  abbrev pub template : Text
  template = codes "/tmp/firmware-XXXXXX"

  module _ (w : World) (r : Request) where
    abbrev pub stop : ℤ → Text → ℤ → Text → List Act → Ended
    stop res fault completed path acts = record {
      res = res;
      fault_msg = snprintf_s 128 fault;
      completed = completed;
      path = path;
      acts = acts;
    }

    abbrev pub fails : Text → Text → List Act → Ended
    fails fault path acts = stop (negsuc 0) fault w.complete_time path acts

    abbrev pub is_ok : Option Text → Bool
    is_ok none = false
    is_ok (some result) = text_eq result (codes "ok")

    abbrev pub or_one : Text → Text
    or_one [] = codes "1"
    or_one (c ∷ s) = c ∷ s

    abbrev pub upgrade_act : Text → Act
    upgrade_act path =
        upgrade path (if w.string_to_bool r.auto_activate then codes "1" else codes "0") r.bank_id
          (or_one r.keep)

    -- The reboot is forked if auto activation is set.
    abbrev pub after_wait : Bool → Text → List Act → Ended
    after_wait status path acts =
        if status
        then stop (pos 0) [] w.complete_time path
            (if w.string_to_bool r.auto_activate then acts ++ (exec_reboot ∷ []) else acts)
        else stop (pos 1) (codes "Failed to apply the downloaded image file") w.complete_time path
            acts

    abbrev pub apply_image : Text → List Act → Ended
    apply_image path acts =
        let acts' = acts ++ (upgrade_act path ∷ []) in
        if is_ok (w.upgrade path)
        then after_wait (wait_for_event r.bank_id w.events false) path acts'
        else stop (pos 1) (codes "Internal error occurred when applying the firmware")
            w.complete_time path acts'

    abbrev pub judge_image : Option Text → Text → List Act → Ended
    judge_image none path acts = fails (codes "Failed in validation of the file") path acts
    judge_image (some valid) path acts =
        if w.string_to_bool valid
        then apply_image path acts
        else fails (codes "File is not a valid firmware image") path acts

    abbrev pub judge_download : ℤ × Text → List Act → Ended
    judge_download (code, path) acts =
        if validate_server_response_code w.names r.url code
        then if validate_checksum_value (w.digest path) r.checksum_algorithm r.checksum
          then judge_image (w.validate_image path) path
              (acts ++ (validate_firmware_image path ∷ []))
          else fails (codes "Checksum of the file is not matched with the specified value") path
              acts
        else fails
            (codes "Download operation is failed, fault code (" ++ (decimal_ℤ code ++ codes ")"))
            path acts

    abbrev pub with_file : Text → Ended
    with_file path =
        judge_download (w.download path) (download_file path r.url r.username r.password ∷ [])

    abbrev pub with_temp : Option Text → Ended
    with_temp none =
        stop (negsuc 0) (codes "Operation failed due to some internal failure") (pos 0) template []
    with_temp (some path) = with_file path

    unfoldable pub download_and_apply : Ended
    download_and_apply =
        if validate_file_system_size w.available r.file_size
        then with_temp w.mkstemp
        else stop (negsuc 0) (codes "Available memory space is lower than required for downloading")
            (pos 0) template []

    -- The event is sent, and the file removed, on every path.
    abbrev pub clean_up : Ended → List Act
    clean_up e =
        send_event (
          transfer_complete_event w.names (codes "Download()") r.obj_path r.url e.fault_msg
            (w.print_time w.start_time) (w.print_time e.completed) (some r.command_key)
            (codes "Download"))
        ∷ (if w.exists e.path && not (has_prefix r.url w.names.file_uri)
            then remove e.path ∷ []
            else [])

    unfoldable pub bbf_fw_image_download : ℤ × List Act
    unfolding download_and_apply
    bbf_fw_image_download = let e = download_and_apply in (e.res, e.acts ++ clean_up e)

-- The part of the parameter's path up to the last '.', that one included.
abbrev pub up_to_dot : Text → Text → Option Text → Option Text
up_to_dot acc [] found = found
up_to_dot acc (c ∷ s) found =
    up_to_dot (acc ++ (c ∷ [])) s (if c == b'.' then some (acc ++ (c ∷ [])) else found)

-- The buffer takes 256 bytes; a path that does not fit leaves it empty.
abbrev pub object_path : Text → Text
object_path path = if ltb (length path + 1) 256 then path else []

abbrev pub or_zero : Text → Text
or_zero [] = codes "0"
or_zero (c ∷ s) = c ∷ s

pub record Faults : Type 0 where
  pub invalid_argument : ℕ
  pub command_failure : ℕ

module _ (b : Blob) (w : World b) (faults : Faults) where
  abbrev pub started : Request → ℕ × List Act
  started r =
      let (res, acts) = bbf_fw_image_download b w r in
      (if ℤ_eq res 0 then 0 else faults.command_failure, acts)

  abbrev pub with_url : Text → Request → ℕ × List Act
  with_url [] r = (faults.invalid_argument, [])
  with_url (c ∷ url) r =
      started (record r { url = c ∷ url; auto_activate = or_zero r.auto_activate })

  -- `r` has the input as given; its path and the rest are put in here.
  unfoldable pub operate_DeviceInfoFirmwareImage_Download : Text → Request → ℕ × List Act
  operate_DeviceInfoFirmwareImage_Download refparam r = elim (up_to_dot [] refparam none) [
    | none ↦ (faults.invalid_argument, [])
    | some path ↦ with_url r.url (record r { obj_path = object_path path })
  ]
