-- ===== src/FwImages/Values.antt =====
-- src/fw_images.c: the instances of FirmwareImage and what their parameters and those on the banks in use read.
use sysmngr.Prelude.{
  ℕ, ◌+◌, Bool, Option, none, some, List, [], ◌∷◌, ◌++◌, map, if◌then◌else◌, codes, is_empty, take,
  snprintf_s, Text,
}
use sysmngr.Libc.{decimal}
use sysmngr.Uci.{Uci}
use sysmngr.Fwbank.{Blob, BlobType, dump_policy}
use sysmngr.Memory.Params.{Action, valuecheck, valueset}
use sysmngr.DataModel.{DmLib}
use sysmngr.FwImages.{
  ImageLib, banks_of, get_blobmsg_option_value, get_fwbank_bank_id, get_available,
}
use sysmngr.FwImages.Activate.{max_time_window}

module _ (b : Blob) (past : Text × BlobType) where
  -- `stops` says where DM_LINK_INST_OBJ gives DM_STOP; that instance is linked before.
  abbrev pub link_banks : (Text → Bool) → ℕ → List b.Attr → List (Text × b.Attr)
  link_banks stops id [] = []
  link_banks stops id (entry ∷ rest) =
      let inst = decimal (id + 1) in
      let more = link_banks stops (id + 1) rest in
      if stops inst then (inst, entry) ∷ [] else (inst, entry) ∷ more

  -- A dump that was never filled is a null pointer: none.
  unfoldable pub browse_firmware_image_inst :
      (Text → Bool) → Option (List b.Attr) → Option (List (Text × b.Attr))
  browse_firmware_image_inst stops none = none
  browse_firmware_image_inst stops (some dump) =
      some (link_banks stops 0 (banks_of b past (b.parse dump_policy dump)))

  -- The bank of an instance, and the option that is read of it.
  unfoldable pub get_fwbank_option_value : b.Attr → Text → Text
  get_fwbank_option_value entry option = get_blobmsg_option_value b past (some entry) option

  unfoldable pub get_alias : b.Attr → Text
  unfolding get_fwbank_option_value
  get_alias entry = codes "cpe-" ++ get_fwbank_option_value entry (codes "id")

  unfoldable pub get_name : b.Attr → Text
  get_name entry = take 64 (get_fwbank_option_value entry (codes "fwver"))

  unfoldable pub get_version : b.Attr → Text
  get_version entry = get_fwbank_option_value entry (codes "swver")

  unfoldable pub get_status : b.Attr → Text
  get_status entry = get_fwbank_option_value entry (codes "status")

  -- Available is read of the section with the id of the bank.
  unfoldable pub get_available_of : b.Attr → List (Text × Text) → Text
  get_available_of entry sections =
      get_available (get_fwbank_option_value entry (codes "id")) sections

  -- An alias that is set is refused.
  unfoldable pub set_alias : (validate : Text → Bool) → ImageLib → Action → Text → ℕ
  set_alias validate lib valuecheck value = if validate value then 0 else lib.fault_9007
  set_alias validate lib valueset value = lib.fault_9007

  module _ (u : Uci) (d : DmLib u) where
    -- The reference to the bank with the id; the buffer of the linker has 16 bytes.
    abbrev pub reference_to : Text → Text
    reference_to bank_id =
        if is_empty bank_id
        then []
        else d.get_references (codes "Device.DeviceInfo.FirmwareImage.") (codes "Alias")
            (snprintf_s 16 (codes "cpe-" ++ bank_id))

    abbrev pub reference_of : Option Text → Option Text
    reference_of none = none
    reference_of (some bank_id) = some (reference_to bank_id)

    unfoldable pub get_device_active_fwimage : Option (List b.Attr) → Option Text
    get_device_active_fwimage dump = reference_of (get_fwbank_bank_id b past dump (codes "active"))

    unfoldable pub get_device_boot_fwimage : Option (List b.Attr) → Option Text
    get_device_boot_fwimage dump = reference_of (get_fwbank_bank_id b past dump (codes "boot"))

    -- The instances that the browse function links when nothing stops it.
    abbrev pub count_of : Option (List (Text × b.Attr)) → Option Text
    count_of none = none
    count_of (some instances) = some (decimal (d.number_of_entries (map (λ i. i.0) instances)))

    unfoldable pub get_number_of_entries : Option (List b.Attr) → Option Text
    unfolding browse_firmware_image_inst
    get_number_of_entries dump = count_of (browse_firmware_image_inst (λ inst. Bool.false) dump)

unfoldable pub get_max_number_of_activate_time_windows : Text
get_max_number_of_activate_time_windows = decimal max_time_window

-- The inputs of the two commands.
abbrev pub firmware_image_download_args : List Text
firmware_image_download_args =
    codes "URL"
    ∷ codes "AutoActivate"
    ∷ codes "Username"
    ∷ codes "Password"
    ∷ codes "FileSize"
    ∷ codes "CheckSumAlgorithm"
    ∷ codes "CheckSum"
    ∷ codes "CommandKey"
    ∷ []

abbrev pub firmware_image_activate_args : List Text
firmware_image_activate_args =
    codes "TimeWindow.{i}.Start"
    ∷ codes "TimeWindow.{i}.End"
    ∷ codes "TimeWindow.{i}.Mode"
    ∷ codes "TimeWindow.{i}.UserMessage"
    ∷ codes "TimeWindow.{i}.MaxRetries"
    ∷ []
