-- ===== src/Tests/Banks.antt =====
-- The theorem on the boot image of src/fw_images.c at a dump of two banks, the second of which boots.
use sysmngr.Prelude.{
  ℕ, ◌≡◌, refl, true, ◌==◌, Option, none, some, List, [], ◌∷◌, arith, Text, codes, get_elem?,
  if◌then◌else◌,
}
use sysmngr.Fwbank.{Blob, BlobType, Policy, child}
use sysmngr.Fwbank.Daemon.{start}
use sysmngr.Fwbank.Ubus.{sysmngr_fwbank_set_bootbank}
use sysmngr.Memory.Params.{valueset}
use sysmngr.Uci.Table.{table_uci, empty_table}
use sysmngr.FwImages.{
  Images, set_device_boot_fwimage, after_set_bootbank, get_blobmsg_option_value, get_available,
}
use sysmngr.FwImages.Values.{get_device_boot_fwimage, get_alias, get_fwbank_option_value}
use sysmngr.FwImages.Reference.{boot_fwimage-alias}
use sysmngr.Tests.FwImages.{image_lib}
use sysmngr.Tests.Values.{dm}

-- The banks 20 and 30 stand in the array 10; a bank has an id and a flag.
abbrev inside : ℕ → List ℕ
inside a = if a == 10 then 20 ∷ 30 ∷ [] else if a == 20 then 5 ∷ 0 ∷ [] else 4294967295 ∷ 1 ∷ []

abbrev rows : Policy → List ℕ → List (Option ℕ)
rows (row ∷ []) given = get_elem? given 0 ∷ []
rows policy given =
    none ∷ get_elem? given 0 ∷ none ∷ get_elem? given 1 ∷ none ∷ none ∷ none ∷ none ∷ none ∷ []

abbrev banks : Blob
banks = record {
  Attr = ℕ;
  name = λ a. [];
  get_string = λ a. [];
  get_bool = λ a. a == 1;
  get_u32 = λ a. a;
  has_type = λ a t. true;
  children = inside;
  parse = λ policy given. some (rows policy given);
  from_json = λ text. none;
  add_u8 = λ name x. 0;
  add_string = λ name x. 0;
  unknown_error = 9;
}

abbrev past : Text × BlobType
past = (codes "x", BlobType.string)

abbrev images : Images table_uci banks image_lib
images = record { config = empty_table; sections = []; fwbank = start banks; copies = 0 }

boot_fwimage-alias_example :
    let alias = get_alias banks past 30 in
    (get_device_boot_fwimage banks past table_uci dm (some (10 ∷ []))
      ≡ some (dm.get_references (codes "Device.DeviceInfo.FirmwareImage.") (codes "Alias") alias))
    × (set_device_boot_fwimage table_uci banks image_lib (child 100) valueset [] alias images
        ≡ after_set_bootbank table_uci banks image_lib images
            (sysmngr_fwbank_set_bootbank banks (child 100) 4294967295 none images.fwbank))
boot_fwimage-alias_example =
    boot_fwimage-alias banks past table_uci dm image_lib (10 ∷ []) (20 ∷ []) [] 30 4294967295
      (child 100) [] images refl
      (unfold get_fwbank_option_value get_blobmsg_option_value in (refl, tt))
      (unfold get_fwbank_option_value get_blobmsg_option_value in refl) (none, _, refl)
      (omega arith) (unfold get_fwbank_option_value get_blobmsg_option_value get_available in refl)
