-- ===== src/Tests/Params.antt =====
-- The theorems on the setters of src/memory.c at concrete values.
use sysmngr.Prelude.{
  ◌≡◌, ◌≢◌, refl, true, false, none, [], ◌++◌, ◌||◌, Text, codes, arith, has_prefix,
}
use sysmngr.Prelude.Int.{pos}
use sysmngr.Uci.Table.{table_uci, empty_table}
use sysmngr.Memory.{MemoryCtx}
use sysmngr.Memory.Params.{ParamLib, Params, set_file_path, accepted-IsSafe}

abbrev pub lib : ParamLib
lib = record {
  validate_boolean = λ value. true;
  validate_unsigned_int = λ lowest highest value. true;
  validate_string = λ value. true;
  string_to_bool = λ value. true;
  rename = λ old value. true;
  fault_9007 = 9007;
}

abbrev pub params : Params table_uci
params = record { config = empty_table; existing = λ path. false; relinked = [] }

abbrev pub ctx : MemoryCtx table_uci
ctx = record {
  timer = none;
  enable = true;
  polling_interval = 60;
  monitored = record {
    watch = record {
      enable_critical_log = false;
      critical_rise_threshold = 80;
      critical_fall_threshold = 60;
      critical_rise_time = pos 0;
      critical_fall_time = pos 0;
      log_file = [];
    };
    config = empty_table;
    effects = [];
  };
  existing = λ path. false;
}

accepted-IsSafe_example :
    ((has_prefix (codes "/log/mem") (codes "/var/log")
        || has_prefix (codes "/log/mem") (codes "/log/"))
      ≡ true)
    × ((pre post : Text) → codes "/log/mem" ≢ pre ++ (codes ".." ++ post))
accepted-IsSafe_example =
    accepted-IsSafe table_uci lib [] (codes "/log/mem") params (λ e. absurd (omega arith))
      (unfold set_file_path in refl)
