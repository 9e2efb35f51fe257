-- ===== src/Configs/Transfers.antt =====
-- src/configs.c: what a backup and a restore do, on all branches.
use sysmngr.Prelude.{
  ◌≡◌, refl, ap, ◌∙◌, Bool, true, false, Bool-cases, inl, inr, ◌&&◌, not, Option, none, List, [],
  ◌∷◌, ◌++◌, if◌then◌else◌, codes, is_empty, has_prefix, Text,
}
use mathlib.Core.List.{append-nil}
use sysmngr.Prelude.Int.{ℤ}
use sysmngr.Utils.{
  Message, validate_server_response_code, validate_file_system_size, validate_checksum_value,
  transfer_complete_event,
}
use sysmngr.Configs.{
  Act, remove, World, Request, Ended, export_and_upload, finish, transfer_event, backup_file,
  restore_file, bbf_config_backup, download_and_import, bbf_config_restore,
}
use sysmngr.Configs.Acts.{
  events_of, uploads_of, imports_of, cons_some, collect, collect-append, one_if,
}

module _ (w : World) (r : Request) where
  -- What has happened when the code comes to `end`: the path of the file, failed and the fault message, and the
  -- uploads, imports and events until then.
  abbrev Shows : Ended → Text → Bool → List Text → List Text → Type 0
  Shows e end_path good uploads imports =
      (e.path ≡ end_path)
      × (not e.failed ≡ good)
      × (is_empty e.fault_msg ≡ good)
      × (collect uploads_of e.acts ≡ uploads)
      × (collect imports_of e.acts ≡ imports)
      × (collect events_of e.acts ≡ [])

  abbrev pub final_event : Text → Text → Text → ℤ → Message
  final_event command transfer_type fault completed =
      transfer_complete_event w.names command r.obj_path r.url fault (w.print_time w.start_time)
        (w.print_time completed) none transfer_type

  -- A file that is there and is the code's own stays if it cannot be removed.
  abbrev pub stays_behind : Bool → Text → Bool
  stays_behind own path = w.exists path && own && not (w.removes path)

  at_end :
      {X : Type 0} (f : Act → Option X) (m : Act) (gone : Bool) (path : Text)
      → f (remove path) ≡ none
      → collect f (m ∷ (if gone then remove path ∷ [] else [])) ≡ cons_some (f m) []
  at_end f m true path h = rw h refl
  at_end f m false path h = refl

  finish-keeps :
      {X : Type 0} (f : Act → Option X) (command transfer_type : Text) (own : Bool) (e : Ended)
      → f (remove e.path) ≡ none
      → collect f (finish w r command transfer_type own e).1
        ≡ collect f e.acts ++ cons_some (f (transfer_event w r command transfer_type e)) []
  finish-keeps f command transfer_type own e h =
      collect-append f e.acts _
      ∙ ap (λ l. collect f e.acts ++ l)
          (at_end f (transfer_event w r command transfer_type e) (w.exists e.path && own) e.path h)

  -- The result, and the uploads, imports and events of a command.
  abbrev pub Done :
      Text → Text → Bool → Text → Bool → List Text → List Text → Bool × List Act → Type 0
  Done command transfer_type own path good uploads imports (ok, acts) =
      (ok ≡ (good && not (stays_behind own path)))
      × (collect uploads_of acts ≡ uploads)
      × (collect imports_of acts ≡ imports)
      × ((fault : Text) × (completed : ℤ) × (is_empty fault ≡ good)
          × (collect events_of acts ≡ final_event command transfer_type fault completed ∷ []))

  finish-Done :
      (command transfer_type : Text) (own : Bool) (path : Text) (good : Bool)
      (uploads imports : List Text) (e : Ended)
      → Shows e path good uploads imports
      → Done command transfer_type own path good uploads imports
          (finish w r command transfer_type own e)
  finish-Done command transfer_type own path good uploads imports e
        (place, failed, fault, uploaded, imported, silent) =
      (
        ap (λ g. g && not (stays_behind own e.path)) failed
            ∙ ap (λ p. good && not (stays_behind own p)) place,
        finish-keeps uploads_of command transfer_type own e refl ∙ append-nil _ ∙ uploaded,
        finish-keeps imports_of command transfer_type own e refl ∙ append-nil _ ∙ imported,
        (
          e.fault_msg,
          e.completed,
          fault,
          finish-keeps events_of command transfer_type own e refl
              ∙ ap (λ l. l ++ (final_event command transfer_type e.fault_msg e.completed ∷ []))
                  silent,
        ),
      )

  -- The tests of the two commands.
  abbrev pub upload_is_good : Bool
  upload_is_good = validate_server_response_code w.names r.url w.upload

  abbrev pub download_is_good : Bool
  download_is_good =
      validate_server_response_code w.names r.url w.download.0
      && validate_checksum_value (w.digest w.download.1) r.checksum_algorithm r.checksum

  abbrev pub checked : Bool
  checked = validate_file_system_size w.available r.file_size && download_is_good

  abbrev pub path_at_end : Text
  path_at_end =
      if validate_file_system_size w.available r.file_size then w.download.1 else restore_file

  backup-Shows :
      (config_name : Text)
      → Shows
          (export_and_upload w r config_name)
          backup_file
          (w.exports config_name && upload_is_good)
          (one_if (w.exports config_name) backup_file)
          []
  backup-Shows config_name = elim (Bool-cases (w.exports config_name)) [
    | inl x ↦ elim (Bool-cases upload_is_good) [
      | inl v ↦ rw (x, v) (refl, refl, refl, refl, refl, refl)
      | inr v ↦ rw (x, v) (refl, refl, refl, refl, refl, refl)
    ]
    | inr x ↦ rw x (refl, refl, refl, refl, refl, refl)
  ]

  -- A backup uploads its file once if the package is exported, and else not; it imports nothing and sends one
  -- TransferComplete! event, with an empty fault exactly if the export and the upload succeed. Its result is
  -- 0 exactly if they do and the file does not stay behind.
  pub backup-Done :
      (config_name : Text)
      → Done
          (codes "Backup()")
          (codes "Upload")
          true
          backup_file
          (w.exports config_name && upload_is_good)
          (one_if (w.exports config_name) backup_file)
          []
          (bbf_config_backup w r config_name)
  unfolding bbf_config_backup
  backup-Done config_name =
      finish-Done (codes "Backup()") (codes "Upload") true backup_file _ _ []
        (export_and_upload w r config_name) (backup-Shows config_name)

  restore-Shows :
      Shows
        (download_and_import w r)
        path_at_end
        (checked && w.imports w.download.1)
        []
        (one_if checked w.download.1)
  restore-Shows = elim (Bool-cases (validate_file_system_size w.available r.file_size)) [
    | inl s ↦ elim (Bool-cases (validate_server_response_code w.names r.url w.download.0)) [
      | inl v ↦
          elim (Bool-cases
            (validate_checksum_value (w.digest w.download.1) r.checksum_algorithm r.checksum)) [
              | inl c ↦ elim (Bool-cases (w.imports w.download.1)) [
                | inl i ↦ rw (s, v, c, i) (refl, refl, refl, refl, refl, refl)
                | inr i ↦ rw (s, v, c, i) (refl, refl, refl, refl, refl, refl)
              ]
              | inr c ↦ rw (s, v, c) (refl, refl, refl, refl, refl, refl)
            ]
      | inr v ↦ rw (s, v) (refl, refl, refl, refl, refl, refl)
    ]
    | inr s ↦ rw s (refl, refl, refl, refl, refl, refl)
  ]

  -- A restore imports its file once if there is room, the download succeeds and the checksum is right, and else
  -- not; it uploads nothing and sends one TransferComplete! event, with an empty fault exactly if these and
  -- the import succeed. Its result is 0 exactly if they do and the file, unless the url is a local file,
  -- does not stay behind.
  pub restore-Done :
      Done
        (codes "Restore()")
        (codes "Download")
        (not (has_prefix r.url w.names.file_uri))
        path_at_end
        (checked && w.imports w.download.1)
        []
        (one_if checked w.download.1)
        (bbf_config_restore w r)
  unfolding bbf_config_restore
  restore-Done =
      finish-Done (codes "Restore()") (codes "Download") (not (has_prefix r.url w.names.file_uri))
        path_at_end _ [] _ (download_and_import w r) restore-Shows
