-- ===== src/Tests/FwImages.antt =====
-- The theorems on src/fw_images.c at concrete runs.
use sysmngr.Prelude.{
  ◌≡◌, refl, true, ◌&&◌, ◌⊎◌, none, some, [], ◌∷◌, Text, codes, text_eq, is_empty,
}
use sysmngr.Prelude.Int.{ℤ, pos}
use sysmngr.Uci.Table.{table_uci, empty_table}
use sysmngr.Utils.{Names}
use sysmngr.Fwbank.{child}
use sysmngr.Fwbank.Daemon.{start}
use sysmngr.Memory.Params.{valueset}
use sysmngr.Tests.Fwbank.{blob}
use sysmngr.FwImages.{ImageLib, Images, get_available, set_available, set_device_boot_fwimage}
use sysmngr.FwImages.Download.{World, Request, bbf_fw_image_download}
use sysmngr.FwImages.Download.Acts.{upgrades, reboots, events_of, one_if}
use sysmngr.FwImages.Download.Outcome.{succeeds, checked, passed, final_event, download-agrees}
use sysmngr.FwImages.Banks.{Untouched, Switches, set_available-get, boot_fwimage-guarded}

abbrev pub names : Names
names = record {
  http_uri = codes "http://";
  ftp_uri = codes "ftp://";
  file_uri = codes "file://";
  dmt_unint = codes "unsignedInt";
  dmt_string = codes "string";
}

-- In the table of attributes 3 is the bank_id "7" and 4 the status "Available".
abbrev pub world : World blob
world = record {
  names = names;
  available = 1000;
  mkstemp = some (codes "/tmp/firmware-1");
  download = λ path. (pos 200, path);
  digest = λ path algo. none;
  validate_image = λ path. some (codes "true");
  upgrade = λ path. some (codes "ok");
  events = (3 ∷ 4 ∷ []) ∷ [];
  exists = λ path. true;
  string_to_bool = λ t. text_eq t (codes "true");
  print_time = λ t. [];
  start_time = pos 0;
  complete_time = pos 9;
}

abbrev pub request : Request
request = record {
  url = codes "http://a/b";
  auto_activate = codes "true";
  username = [];
  password = [];
  file_size = [];
  checksum_algorithm = [];
  checksum = [];
  bank_id = codes "7";
  obj_path = [];
  command_key = [];
  keep = [];
}

download-agrees_example :
    let (res, acts) = bbf_fw_image_download blob world request in
    (succeeds res ≡ passed blob world request)
    × (upgrades acts ≡ one_if (checked blob world request))
    × (reboots acts
        ≡ one_if (passed blob world request && world.string_to_bool request.auto_activate))
    × ((fault : Text) × (completed : ℤ) × (is_empty fault ≡ passed blob world request)
        × (events_of acts ≡ final_event blob world request fault completed ∷ []))
download-agrees_example = download-agrees blob world request

abbrev pub image_lib : ImageLib
image_lib = record {
  validate_boolean = λ t. true;
  validate_string = λ t. true;
  allowed_object = λ t. true;
  string_to_bool = λ t. text_eq t (codes "true");
  section_cont = λ sections id. get_available id sections;
  fault_9001 = 9001;
  fault_9007 = 9007;
}

abbrev pub images : Images table_uci blob image_lib
images = record { config = empty_table; sections = []; fwbank = start blob; copies = 0 }

set_available-get_example :
    let after =
      (set_available image_lib valueset
        (codes "1")
        (codes "false")
        (codes "false")
        (codes "false")
        []).1 in
    (get_available (codes "1") after ≡ codes "false")
    × (get_available (codes "2") after ≡ codes "true")
unfolding get_available
set_available-get_example =
    set_available-get image_lib (codes "1") (codes "2") (codes "false") (codes "false")
      (codes "false") [] refl

boot_fwimage-guarded_example :
    let (res, after) =
      set_device_boot_fwimage table_uci blob image_lib
        (child 100)
        valueset
        []
        (codes "cpe-1")
        images in
    Untouched table_uci blob image_lib images after
    ⊎ Switches table_uci blob image_lib (child 100) (codes "cpe-1") images res after
boot_fwimage-guarded_example =
    boot_fwimage-guarded table_uci blob image_lib (child 100) valueset [] (codes "cpe-1") images
