-- ===== src/Tests/Values.antt =====
-- The theorems on the parameters of src/memory.c and src/processes.c at concrete values.
use sysmngr.Prelude.{
  ◌≡◌, ◌≢◌, refl, true, Bool-cases, inl, inr, none, [], codes, arith, Text, is_empty, if◌then◌else◌,
}
use sysmngr.Prelude.Int.{pos}
use sysmngr.Uci.{Key}
use sysmngr.Uci.Table.{Table, table_uci, table_laws, empty_table, lookup}
use sysmngr.Memory.Params.{valueset, set_critical_rise_threshold, Params}
use sysmngr.DataModel.Schema.{both}
use sysmngr.DataModel.Tables.{Macros}
use sysmngr.DataModel.Tables.Device.{dm_device_info_obj}
use sysmngr.DataModel.Sanity.{objects_are_sane, device_info-IsSane}
use sysmngr.DataModel.{DmLib, DmLaws, ok}
use sysmngr.Memory.Values.{critical_rise_threshold, setter}
use sysmngr.Memory.Options.{Param-discrete}
use sysmngr.Memory.Applied.{filled, fill-setter}
use sysmngr.Libc.{strtoul, signed_digits, digits_value}
use sysmngr.Cpu.Values as CpuValues
use sysmngr.Cpu.Params as CpuParams
use sysmngr.Cpu.Options.{Param-discrete as cpu_discrete}
use sysmngr.Cpu.Independence.{get_param-set_cpu}
use sysmngr.Tests.Params.{lib, ctx}
use sysmngr.Tests.Monitors.{cpu_info}

abbrev pub dm : DmLib table_uci
dm = record {
  read = λ c k. lookup k c.options;
  read_or = λ c k fallback. if is_empty (lookup k c.options) then fallback else lookup k c.options;
  time_utc_format = λ t. (pos 0, codes "0001-01-01T00:00:00Z");
  get_references = λ path key value. [];
  number_of_entries = λ instances. 0;
  Dmmap = Text;
  get_alias = λ s option instance_name. (pos 0, s);
  set_alias = λ action option instance_name value s. (0, value);
}

dm_read-add : (c : Table) (p s t : Text) (j : Key) → dm.read (table_uci.add c p s t) j ≡ dm.read c j
dm_read-add c p s t j = elim (Bool-cases (table_uci.taken c p s)) [
  | inl e ↦ rw e refl
  | inr e ↦ rw e refl
]

pub dm_laws : DmLaws table_uci dm
dm_laws = record { read-set = λ c k j v. refl; read-add = dm_read-add; read_or_lem = λ c k v. refl }

-- The path of a log file that is there.
abbrev moving : Params table_uci
moving = record { config = empty_table; existing = λ path. true; relinked = [] }

fill-setter_example :
    let after = (set_critical_rise_threshold table_uci lib valueset (codes "90") moving).1.config in
    let old = filled table_uci table_laws dm dm_laws lib ctx empty_table in
    let new = filled table_uci table_laws dm dm_laws lib ctx after in
    let had = old.monitored.watch in
    let has = new.monitored.watch in
    (new.enable ≡ old.enable)
    × (new.polling_interval ≡ old.polling_interval)
    × (has.critical_rise_threshold ≡ 90)
    × (has.critical_fall_threshold ≡ had.critical_fall_threshold)
    × (has.enable_critical_log ≡ had.enable_critical_log)
    × (has.log_file ≡ had.log_file)
    × (has.critical_rise_time ≡ had.critical_rise_time)
    × (has.critical_fall_time ≡ had.critical_fall_time)
unfolding Param-discrete strtoul signed_digits digits_value
fill-setter_example =
    fill-setter table_uci table_laws dm dm_laws lib critical_rise_threshold
      (set_critical_rise_threshold table_uci lib) (codes "90") moving ctx
      (λ e. absurd (omega arith)) (unfold setter in refl)
      (unfold set_critical_rise_threshold in refl)

get_param-set_cpu_example :
    CpuValues.get_param table_uci dm cpu_info none CpuValues.num_samples
      (CpuParams.set_num_samples table_uci lib valueset (codes "120") moving).1
    ≡ ok (codes "120")
unfolding cpu_discrete CpuValues.get_param
get_param-set_cpu_example =
    get_param-set_cpu table_uci dm dm_laws lib cpu_info none CpuValues.num_samples
      CpuValues.num_samples (CpuParams.set_num_samples table_uci lib) (codes "120") moving
      (λ e. absurd (omega arith)) (unfold CpuValues.setter in refl)
      (unfold CpuParams.set_num_samples in refl) (λ e. cpu_other)
  where
    cpu_other : CpuValues.num_samples ≢ CpuValues.vendor_log_file_ref
    cpu_other e = cc

abbrev all_built : Macros
all_built = record {
  vendor_config_file = true;
  memory_status = true;
  process_status = true;
  network_properties = true;
  supported_data_model = true;
  firmware_image = true;
  reboots = true;
  temperature_status = true;
  vendor_extensions = true;
}

device_info-IsSane_example : objects_are_sane both (dm_device_info_obj all_built) ≡ true
device_info-IsSane_example = device_info-IsSane all_built
