-- ===== src/FwImages/Download/Outcome.antt =====
-- src/fw_images.c: the runs of the download, all branches, against a chain of tests.
use sysmngr.Prelude.{
  zero, ◌≡◌, refl, sym, ap, ◌∙◌, Bool, true, false, Bool-cases, inl, inr, ◌&&◌, Option, none, some,
  List, [], ◌∷◌, ◌++◌, arith, codes, is_empty,
}
use sysmngr.Prelude.Strings.{Text}
use sysmngr.Prelude.Int.{ℤ, pos}
use sysmngr.Fwbank.{Blob}
use sysmngr.Utils.{
  Message, validate_server_response_code, validate_file_system_size, validate_checksum_value,
  transfer_complete_event,
}
use sysmngr.FwImages.Download.Acts.{
  upgrades, reboots, events_of, one_if, upgrades-append, reboots-append, events_of-append,
}
use sysmngr.FwImages.Download.{
  Request, World, Act, download_file, validate_firmware_image, Ended, wait_for_event, upgrade_act,
  is_ok, after_wait, apply_image, judge_image, with_file, with_temp, download_and_apply, clean_up,
  bbf_fw_image_download,
}

abbrev pub succeeds : ℤ → Bool
succeeds (pos zero) = true
succeeds _ = false

module _ (b : Blob) (w : World b) (r : Request) where
  -- The tests up to the upgrade, in their order.
  abbrev pub image_is_valid : Option Text → Bool
  image_is_valid none = false
  image_is_valid (some valid) = w.string_to_bool valid

  abbrev pub file_is_good : Text → Bool
  file_is_good asked =
      let (code, path) = w.download asked in
      validate_server_response_code w.names r.url code
      && (validate_checksum_value (w.digest path) r.checksum_algorithm r.checksum
          && image_is_valid (w.validate_image path))

  -- The upgrade that must answer "ok", and the event that must report the image.
  abbrev pub upgrade_succeeds : Text → Bool
  upgrade_succeeds path = is_ok b w r (w.upgrade path) && wait_for_event b r.bank_id w.events false

  abbrev pub image_is_applied : Text → Bool
  image_is_applied asked = upgrade_succeeds (w.download asked).1

  abbrev pub holds_of : (Text → Bool) → Option Text → Bool
  holds_of test none = false
  holds_of test (some path) = test path

  abbrev pub checked : Bool
  checked = validate_file_system_size w.available r.file_size && holds_of file_is_good w.mkstemp

  abbrev pub passed : Bool
  passed = checked && holds_of image_is_applied w.mkstemp

  -- What a run shows: its result and its fault, the upgrades and the reboots.
  record Agrees (e : Ended b) (good done : Bool) : Type 0 where
    result : succeeds e.res ≡ done
    fault : is_empty e.fault_msg ≡ done
    upgraded : upgrades e.acts ≡ one_if good
    rebooted : reboots e.acts ≡ one_if (done && w.string_to_bool r.auto_activate)
    silent : events_of e.acts ≡ []

  abbrev before_upgrade : Text → Text → List Act
  before_upgrade asked path =
      download_file asked r.url r.username r.password ∷ validate_firmware_image path ∷ []

  wait-Agrees :
      (status : Bool) (asked path : Text)
      → Agrees
          (after_wait b w r status path
            (before_upgrade asked path ++ (upgrade_act b w r path ∷ [])))
          true
          status
  wait-Agrees false asked path = record {
    result = refl;
    fault = refl;
    upgraded = refl;
    rebooted = refl;
    silent = refl;
  }
  wait-Agrees true asked path = elim (Bool-cases (w.string_to_bool r.auto_activate)) [
    | inl e ↦ rw e (record {
      result = refl;
      fault = refl;
      upgraded = refl;
      rebooted = ap one_if (sym e);
      silent = refl;
    })
    | inr e ↦ rw e (record {
      result = refl;
      fault = refl;
      upgraded = refl;
      rebooted = ap one_if (sym e);
      silent = refl;
    })
  ]

  apply-Agrees :
      (asked path : Text)
      → Agrees (apply_image b w r path (before_upgrade asked path)) true (upgrade_succeeds path)
  apply-Agrees asked path = elim (Bool-cases (is_ok b w r (w.upgrade path))) [
    | inl e ↦ rw e (wait-Agrees (wait_for_event b r.bank_id w.events false) asked path)
    | inr e ↦
        rw e
          (record { result = refl; fault = refl; upgraded = refl; rebooted = refl; silent = refl })
  ]

  judge-Agrees :
      (asked path : Text) (answer : Option Text)
      → Agrees
          (judge_image b w r answer path (before_upgrade asked path))
          (image_is_valid answer)
          (image_is_valid answer && upgrade_succeeds path)
  judge-Agrees asked path none = record {
    result = refl;
    fault = refl;
    upgraded = refl;
    rebooted = refl;
    silent = refl;
  }
  judge-Agrees asked path (some valid) = elim (Bool-cases (w.string_to_bool valid)) [
    | inl e ↦ rw e (apply-Agrees asked path)
    | inr e ↦
        rw e
          (record { result = refl; fault = refl; upgraded = refl; rebooted = refl; silent = refl })
  ]

  file-Agrees :
      (asked : Text)
      → Agrees
          (with_file b w r asked)
          (file_is_good asked)
          (file_is_good asked && image_is_applied asked)
  file-Agrees asked =
      let path = (w.download asked).1 in
      elim (Bool-cases (validate_server_response_code w.names r.url (w.download asked).0)) [
        | inl e ↦
            elim (Bool-cases
              (validate_checksum_value (w.digest path) r.checksum_algorithm r.checksum)) [
                | inl c ↦ rw (e, c) (judge-Agrees asked path (w.validate_image path))
                | inr c ↦
                    rw (e, c)
                      (record {
                        result = refl;
                        fault = refl;
                        upgraded = refl;
                        rebooted = refl;
                        silent = refl;
                      })
              ]
        | inr e ↦ rw e (record {
          result = refl;
          fault = refl;
          upgraded = refl;
          rebooted = refl;
          silent = refl;
        })
      ]

  temp-Agrees :
      (temp : Option Text)
      → Agrees
          (with_temp b w r temp)
          (holds_of file_is_good temp)
          (holds_of file_is_good temp && holds_of image_is_applied temp)
  temp-Agrees none = record {
    result = refl;
    fault = refl;
    upgraded = refl;
    rebooted = refl;
    silent = refl;
  }
  temp-Agrees (some path) = file-Agrees path

  run-Agrees : Agrees (download_and_apply b w r) checked passed
  unfolding download_and_apply
  run-Agrees = elim (Bool-cases (validate_file_system_size w.available r.file_size)) [
    | inl e ↦ rw e (temp-Agrees w.mkstemp)
    | inr e ↦
        rw e
          (record { result = refl; fault = refl; upgraded = refl; rebooted = refl; silent = refl })
  ]

  -- The actions at the end: no upgrade, no reboot and one event.
  upgrades-clean_up : (e : Ended b) → upgrades (clean_up b w r e) ≡ 0
  upgrades-clean_up e = ground arith

  reboots-clean_up : (e : Ended b) → reboots (clean_up b w r e) ≡ 0
  reboots-clean_up e = ground arith

  abbrev pub final_event : Text → ℤ → Message
  final_event fault completed =
      transfer_complete_event w.names (codes "Download()") r.obj_path r.url fault
        (w.print_time w.start_time) (w.print_time completed) (some r.command_key) (codes "Download")

  events-clean_up :
      (e : Ended b) → events_of (clean_up b w r e) ≡ final_event e.fault_msg e.completed ∷ []
  events-clean_up e = ground arith

  -- The download gives 0 exactly if all the tests pass, up to the event that reports the image. The image is
  -- handed to the upgrade once if the file passed its tests, and else never. A reboot is forked once if
  -- all passed and auto activation is set, and else never. One TransferComplete! event is sent on every
  -- path, with a fault text that is empty exactly if all passed.
  pub download-agrees :
      let (res, acts) = bbf_fw_image_download b w r in
      (succeeds res ≡ passed)
      × (upgrades acts ≡ one_if checked)
      × (reboots acts ≡ one_if (passed && w.string_to_bool r.auto_activate))
      × ((fault : Text) × (completed : ℤ) × (is_empty fault ≡ passed)
          × (events_of acts ≡ final_event fault completed ∷ []))
  unfolding bbf_fw_image_download
  download-agrees =
      let e = download_and_apply b w r in
      let a = run-Agrees in
      (
        a.result,
        omega (arith, upgrades-append e.acts (clean_up b w r e), upgrades-clean_up e, a.upgraded),
        omega (arith, reboots-append e.acts (clean_up b w r e), reboots-clean_up e, a.rebooted),
        (
          e.fault_msg,
          e.completed,
          a.fault,
          events_of-append e.acts (clean_up b w r e) ∙ (λ i. a.silent i ++ events-clean_up e i),
        ),
      )
