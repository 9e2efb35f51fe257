-- ===== src/Tests/Configs.antt =====
-- The theorems on src/configs.c and on the CPU setters of src/processes.c at concrete runs.
use sysmngr.Prelude.{
  ◌≤◌, ◌≡◌, refl, Bool, true, false, ◌&&◌, not, none, List, [], ◌∷◌, Text, codes, text_eq, length,
  arith, has_prefix, leb,
}
use sysmngr.Prelude.Int.{pos}
use sysmngr.Libc.{strtoul, signed_digits, digits_value}
use sysmngr.Uci.Table.{table_uci, table_laws, empty_table}
use sysmngr.Configs.{
  Section, World, Request, dmmap_synchronize_vcf_inst, backup_file, bbf_config_backup,
  bbf_config_restore,
}
use sysmngr.Configs.Sync.{count, synchronize-count}
use sysmngr.Configs.Acts.{one_if}
use sysmngr.Configs.Transfers.{
  Done, upload_is_good, checked, path_at_end, backup-Done, restore-Done,
}
use sysmngr.Memory.Params.{ParamLib, Params, valueset}
use sysmngr.Cpu.{CpuInfo, CpuLib, fill_global_cpu_info, no_jiffies}
use sysmngr.Cpu.Params.{set_num_samples, num_samples-fill}
use sysmngr.Tests.FwImages.{names}

abbrev sections : List Section
sections =
    record { name = codes "old"; backup_restore = codes "1"; version = []; description = [] } ∷ []

-- The files are network and wireless, and the first alone is listed.
abbrev is_file : Text → Bool
is_file path = text_eq path (codes "/etc/config/network")

synchronize-count_example :
    count
      (codes "network")
      (dmmap_synchronize_vcf_inst (codes "/etc/config/") is_file (codes "network" ∷ []) sections)
    ≡ 1
synchronize-count_example =
    synchronize-count (codes "/etc/config/") is_file (codes "network" ∷ []) sections
      (codes "network")

abbrev world : World
world = record {
  names = names;
  available = 1000;
  exports = λ name. true;
  imports = λ path. true;
  removes = λ path. true;
  upload = pos 200;
  download = (pos 200, codes "/tmp/bbf_config_restore");
  digest = λ path algo. none;
  exists = λ path. true;
  print_time = λ t. [];
  start_time = pos 0;
  complete_time = pos 9;
}

abbrev request : Request
request = record {
  url = codes "http://a/b";
  username = [];
  password = [];
  file_size = [];
  checksum_algorithm = [];
  checksum = [];
  obj_path = [];
}

backup-Done_example :
    Done world request
      (codes "Backup()")
      (codes "Upload")
      true
      backup_file
      (world.exports (codes "network") && upload_is_good world request)
      (one_if (world.exports (codes "network")) backup_file)
      []
      (bbf_config_backup world request (codes "network"))
backup-Done_example = backup-Done world request (codes "network")

restore-Done_example :
    Done world request
      (codes "Restore()")
      (codes "Download")
      (not (has_prefix request.url world.names.file_uri))
      (path_at_end world request)
      (checked world request && world.imports world.download.1)
      []
      (one_if (checked world request) world.download.1)
      (bbf_config_restore world request)
restore-Done_example = restore-Done world request

-- The validator accepts 30 alone.
abbrev lib : ParamLib
lib = record {
  validate_boolean = λ value. true;
  validate_unsigned_int = λ lowest highest value. text_eq value (codes "30");
  validate_string = λ value. true;
  string_to_bool = λ value. true;
  rename = λ old value. true;
  fault_9007 = 9007;
}

abbrev pub cpu_lib : CpuLib
cpu_lib = record { strip = λ line. line; names = names }

abbrev params : Params table_uci
params = record { config = empty_table; existing = λ path. false; relinked = [] }

abbrev pub info : CpuInfo table_uci
info = record {
  timer = none;
  jiffy = no_jiffies table_uci;
  enable = true;
  full_samples_reached = false;
  poll_interval = 5;
  user_utilization_samples = [];
  system_utilization_samples = [];
  idle_utilization_samples = [];
  utilization_samples = [];
  num_samples = 0;
  sample_index = 0;
  monitored = record {
    watch = record {
      enable_critical_log = false;
      critical_rise_threshold = 80;
      critical_fall_threshold = 60;
      critical_rise_time = pos 0;
      critical_fall_time = pos 0;
      log_file = [];
    };
    config = empty_table;
    effects = [];
  };
  existing = λ path. false;
}

-- A validator of the range, which takes leading zeros.
abbrev ranged_lib : ParamLib
ranged_lib = record lib {
  validate_unsigned_int = λ low high t. leb 1 (strtoul t) && leb (strtoul t) 300;
}

in_range :
    (t : Text)
    → (leb 1 (strtoul t) && leb (strtoul t) 300) ≡ true
    → (1 ≤ strtoul t) × (strtoul t ≤ 300)
in_range t h = ground arith

num_samples-fill_example :
    let p' = (set_num_samples table_uci ranged_lib valueset (codes "0030") params).1 in
    let t =
      fill_global_cpu_info table_uci cpu_lib true none
        (record info { monitored = record info.monitored { config = p'.config } }) in
    (t.num_samples ≡ 30)
    × (1 ≤ t.num_samples)
    × (t.num_samples ≤ 300)
    × (length t.utilization_samples ≡ t.num_samples)
    × (length t.user_utilization_samples ≡ t.num_samples)
    × (length t.system_utilization_samples ≡ t.num_samples)
    × (length t.idle_utilization_samples ≡ t.num_samples)
unfolding strtoul signed_digits digits_value
num_samples-fill_example =
    num_samples-fill table_uci table_laws ranged_lib cpu_lib none (codes "0030") params info
      (λ e. absurd (omega arith)) in_range (omega arith)
      (unfold set_num_samples in
        unfold strtoul in unfold signed_digits in unfold digits_value in refl)
