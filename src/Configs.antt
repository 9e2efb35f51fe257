-- ===== src/Configs.antt =====
-- src/configs.c: the sections of the vendor config files, and the backup and the restore of a configuration.
pub mod Sync
pub mod Acts
pub mod Transfers
pub mod Values
use sysmngr.Prelude.{
  ℕ, zero, ◌==◌, Bool, true, false, ◌&&◌, ◌||◌, not, Option, none, some, List, [], ◌∷◌, ◌++◌,
  if◌then◌else◌, codes, text_eq, is_empty, has_prefix, snprintf_s,
}
use sysmngr.Prelude.Strings.{Text}
use sysmngr.Prelude.Int.{ℤ, pos, negsuc}
use sysmngr.Libc.{decimal_ℤ}
use sysmngr.Utils.{
  Names, Message, ℤ_eq, validate_server_response_code, validate_file_system_size,
  validate_checksum_value, transfer_complete_event,
}
use sysmngr.FwImages.Download.{Faults, up_to_dot, object_path}

-- A section vcf of dmmap.
pub record Section : Type 0 where
  pub name : Text
  pub backup_restore : Text
  pub version : Text
  pub description : Text

abbrev pub has_section : Text → List Section → Bool
has_section n [] = false
has_section n (s ∷ rest) = text_eq s.name n || has_section n rest

abbrev pub starts_with_dot : Text → Bool
starts_with_dot [] = false
starts_with_dot (c ∷ s) = c == b'.'

abbrev pub add_section : Text → List Section → List Section
add_section n sections =
    if starts_with_dot n || has_section n sections
    then sections
    else sections
      ++ (record { name = n; backup_restore = codes "1"; version = []; description = [] } ∷ [])

-- `files` are the names that sysfs_foreach_file goes through.
unfoldable pub add_files : List Text → List Section → List Section
add_files [] sections = sections
add_files (n ∷ files) sections = add_files files (add_section n sections)

-- `exists` is file_exists, on the path cut to the buffer of 128 bytes.
unfoldable pub remove_missing : Text → (Text → Bool) → List Section → List Section
remove_missing config_dir exists [] = []
remove_missing config_dir exists (s ∷ sections) =
    let rest = remove_missing config_dir exists sections in
    if exists (snprintf_s 128 (config_dir ++ s.name)) then s ∷ rest else rest

unfoldable pub dmmap_synchronize_vcf_inst :
    Text → (Text → Bool) → List Text → List Section → List Section
unfolding add_files remove_missing
dmmap_synchronize_vcf_inst config_dir exists files sections =
    remove_missing config_dir exists (add_files files sections)

-- What leaves the program, in order.
pub data Act : Type 0 where
  export_package : Text → Text → Act
  upload_file : Text → Text → Text → Text → Act
  download_file : Text → Text → Text → Text → Act
  import_file : Text → Act
  send_event : Message → Act
  remove : Text → Act

-- The answers of libuci, of the server and of the file system.
pub record World : Type 0 where
  pub names : Names
  pub available : ℕ
  -- The results 0.
  pub exports : Text → Bool
  pub imports : Text → Bool
  pub removes : Text → Bool
  pub upload : ℤ
  -- The code and what the path of the file is afterwards.
  pub download : ℤ × Text
  pub digest : Text → Text → Option Text
  pub exists : Text → Bool
  -- The calendar's print of a time.
  pub print_time : ℤ → Text
  pub start_time : ℤ
  pub complete_time : ℤ

-- The input of Backup() and Restore(), the command and the path of the object.
pub record Request : Type 0 where
  pub url : Text
  pub username : Text
  pub password : Text
  pub file_size : Text
  pub checksum_algorithm : Text
  pub checksum : Text
  pub obj_path : Text

-- Where the code comes to `end`.
pub record Ended : Type 0 where
  pub failed : Bool
  pub fault_msg : Text
  pub completed : ℤ
  pub path : Text
  pub acts : List Act

abbrev pub backup_file : Text
backup_file = codes "/tmp/bbf_config_backup"

abbrev pub restore_file : Text
restore_file = codes "/tmp/bbf_config_restore"

module _ (w : World) (r : Request) where
  abbrev pub ends : Text → ℤ → Text → List Act → Ended
  ends fault completed path acts = record {
    failed = not (is_empty fault);
    fault_msg = snprintf_s 128 fault;
    completed = completed;
    path = path;
    acts = acts;
  }

  abbrev pub upload_fault : ℤ → Text
  upload_fault code =
      codes "Upload operation is failed, fault code (" ++ (decimal_ℤ code ++ codes ")")

  abbrev pub export_and_upload : Text → Ended
  export_and_upload config_name =
      let acts = export_package config_name backup_file ∷ [] in
      let acts' = acts ++ (upload_file backup_file r.url r.username r.password ∷ []) in
      if w.exports config_name
      then (if validate_server_response_code w.names r.url w.upload
          then ends [] w.complete_time backup_file acts'
          else ends (upload_fault w.upload) w.complete_time backup_file acts')
      else ends (codes "Failed to export the configurations") (pos 0) backup_file acts

  abbrev pub transfer_event : Text → Text → Ended → Act
  transfer_event command transfer_type e = send_event (
      transfer_complete_event w.names command r.obj_path r.url e.fault_msg
        (w.print_time w.start_time) (w.print_time e.completed) none transfer_type)

  -- The end: the event, and the file that is there is removed if `own` holds; true is the result 0.
  abbrev pub finish : Text → Text → Bool → Ended → Bool × List Act
  finish command transfer_type own e =
      let gone = w.exists e.path && own in
      (
        not e.failed && not (gone && not (w.removes e.path)),
        e.acts
            ++ (transfer_event command transfer_type e ∷ (if gone then remove e.path ∷ [] else [])),
      )

  unfoldable pub bbf_config_backup : Text → Bool × List Act
  bbf_config_backup config_name =
      finish (codes "Backup()") (codes "Upload") true (export_and_upload config_name)

  abbrev pub import_it : Text → List Act → Ended
  import_it path acts =
      let acts' = acts ++ (import_file path ∷ []) in
      if w.imports path
      then ends [] w.complete_time path acts'
      else ends (codes "Failed to import the configurations") w.complete_time path acts'

  abbrev pub with_file : ℤ × Text → Ended
  with_file (code, path) =
      let acts = download_file restore_file r.url r.username r.password ∷ [] in
      if validate_server_response_code w.names r.url code
      then (if validate_checksum_value (w.digest path) r.checksum_algorithm r.checksum
          then import_it path acts
          else ends (codes "Checksum of the downloaded file is mismatched") w.complete_time path
              acts)
      else ends (upload_fault code) w.complete_time path acts

  abbrev pub download_and_import : Ended
  download_and_import =
      if validate_file_system_size w.available r.file_size
      then with_file w.download
      else ends (codes "Available memory space is less than required for the operation") (pos 0)
          restore_file []

  unfoldable pub bbf_config_restore : Bool × List Act
  bbf_config_restore =
      finish (codes "Restore()") (codes "Download") (not (has_prefix r.url w.names.file_uri))
        download_and_import

module _ (w : World) (faults : Faults) where
  abbrev pub result_of : Bool × List Act → ℕ × List Act
  result_of (ok, acts) = (if ok then 0 else faults.command_failure, acts)

  -- A command needs a '.' in its path and a url.
  abbrev pub guarded : Option Text → Text → (Text → Bool × List Act) → ℕ × List Act
  guarded none url run = (faults.invalid_argument, [])
  guarded (some path) [] run = (faults.invalid_argument, [])
  guarded (some path) (c ∷ url) run = result_of (run (object_path path))

  -- `vcf_name` is the name in the section; `r` has the input as given.
  unfoldable pub operate_DeviceInfoVendorConfigFile_Backup : Text → Text → Request → ℕ × List Act
  unfolding bbf_config_backup
  operate_DeviceInfoVendorConfigFile_Backup refparam vcf_name r =
      guarded (up_to_dot [] refparam none) r.url
        (λ path. bbf_config_backup w (record r { obj_path = path }) vcf_name)

  unfoldable pub operate_DeviceInfoVendorConfigFile_Restore : Text → Request → ℕ × List Act
  unfolding bbf_config_restore
  operate_DeviceInfoVendorConfigFile_Restore refparam r =
      guarded (up_to_dot [] refparam none) r.url
        (λ path. bbf_config_restore w (record r { obj_path = path }))
