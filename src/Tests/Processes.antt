-- ===== src/Tests/Processes.antt =====
-- The theorems on the processes of src/processes.c at concrete runs.
use sysmngr.Prelude.{
  ℕ, ◌+◌, ◌*◌, ◌≤◌, ◌≡◌, refl, true, none, some, List, [], ◌∷◌, ◌++◌, if◌then◌else◌, Text, codes,
  length, arith, strstr, snprintf_s, subst, if_some,
}
use sysmngr.Prelude.Int.{pos}
use sysmngr.Libc.{digits_value, signed_digits, strtol, to_int}
use sysmngr.Uci.Table.{Table, table_uci, empty_table}
use sysmngr.Procps.{ProcLib, ProcessEntry, procps_get_cmdline, read_entry, scan_stat}
use sysmngr.Procps.Command.{NoneBelowSpace, get_cmdline-NoneBelowSpace}
use sysmngr.Processes.{Event, ProcessCtx, Proc, sysmngr_process_init}
use sysmngr.Processes.Observer.{observe, instances}
use sysmngr.Processes.Events.{IsReadable, refreshes, none_left, one_readable, refreshes-observed}
use sysmngr.Processes.Alive.{started, Waits, refresh_comes_back}

-- Every stat file is that of init, and no command line can be read.
abbrev stat_file : Text
stat_file = codes "1 (init) S 0 1 1 0 -1 4 5 6 7 8 10 20 30 40 20 0 1 0 3 4096 9"

abbrev lib : ProcLib
lib = record {
  exists = λ path. true;
  file_to_buf = λ path size. if strstr path (codes "stat") then some stat_file else none;
  strncpy = λ size s. snprintf_s size s;
  basename = λ path. 0;
  clock_ticks = 100;
  undefined_priority = λ z. 0;
}

abbrev pub proc : Proc
proc = record {
  lib = lib;
  dir = some (codes "acpi" ∷ codes "1" ∷ codes "2" ∷ []);
  allocated = λ n. true;
}

-- One process is in the list.
abbrev entry : ProcessEntry
entry = record { command = []; state = []; pid = []; size = []; priority = []; cputime = [] }

abbrev pub ctx : ProcessCtx
ctx = record {
  instance_timer = none;
  list = entry ∷ [];
  refresh_interval = pos 60;
  process_num = 1;
  pending = 0;
  events = [];
}

proc-IsReadable : IsReadable proc
proc-IsReadable = record {
  names = codes "acpi" ∷ codes "1" ∷ codes "2" ∷ [];
  opened = refl;
  enough = λ n. refl;
  inhabited = unfold read_entry scan_stat digits_value in omega arith;
}

refreshes-observed_example :
    let after = refreshes (proc ∷ []) ctx in
    (after.process_num ≡ length after.list)
    × ((news : List Event) × (after.events ≡ [] ++ news)
        × (observe news (instances 1) ≡ some (instances after.process_num)))
refreshes-observed_example =
    refreshes-observed (proc ∷ []) ctx (λ e. absurd (omega arith)) refl
      (one_readable proc-IsReadable none_left)

-- The interval is 60 seconds.
abbrev table : Table
table =
    table_uci.set empty_table (codes "sysmngr", codes "process", codes "instance_refresh_interval")
      (codes "60")

refresh_comes_back_example : Waits (sysmngr_process_init table_uci table proc ctx) × (0 ≤ 2 * 0 + 1)
refresh_comes_back_example =
    refresh_comes_back table_uci table proc ctx (sysmngr_process_init table_uci table proc ctx) 0 0
      (unfold strtol signed_digits digits_value to_int in refl) refl started

fits : (path : Text) (bytes : List ℕ) → lib.file_to_buf path 256 ≡ some bytes → length bytes ≤ 255
fits path bytes e =
    subst (λ xs. length xs ≤ 255) (if_some (strstr path (codes "stat")) stat_file bytes e).1
      (omega arith)

get_cmdline-NoneBelowSpace_example :
    let text = procps_get_cmdline lib 256 (codes "1") (some (codes "init")) in
    NoneBelowSpace text × (length text ≤ 255)
get_cmdline-NoneBelowSpace_example =
    get_cmdline-NoneBelowSpace lib 256 (codes "1") (codes "init")
      (omega arith, (omega arith, (omega arith, (omega arith, tt)))) fits
