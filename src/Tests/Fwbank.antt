-- ===== src/Tests/Fwbank.antt =====
-- The theorems on src/fwbank.c at a concrete run, with a small table of attributes for libubox.
use sysmngr.Prelude.{
  ℕ, ◌+◌, ◌≡◌, refl, true, false, Option, none, some, List, [], ◌∷◌, Text, codes, text_eq,
  snprintf_s, ◌==◌, if◌then◌else◌,
}
use sysmngr.Fwbank.{
  Blob, Policy, child, Finish, Fwbank, defer_request, send_reply, complete_deferred, started_task,
  dump_cmd, sysmngr_task_fork, sysmngr_init_fwbank_dump, validate_global_fwbank_dump,
}
use sysmngr.Fwbank.Tasks.{
  Pipe, read_pipe, parsed_dump, fwbank_dump_finish_callback, _sysmngr_task_finish_callback,
}
use sysmngr.Fwbank.Ubus.{fwbank_receive_sysupgrade, set_bootbank_handler}
use sysmngr.Fwbank.Sysupgrade.{
  DumpForked, no_attr, none_left, receive_sysupgrade-foreign, receive_sysupgrade-available,
}
use sysmngr.Libc.{decimal, digits_before}
use sysmngr.Fwbank.Daemon.{Event, step, run, start}
use sysmngr.Fwbank.Daemon.Invariant.{reachable-IsValid}
use sysmngr.Fwbank.Daemon.Kept.{IsValid}
use sysmngr.Fwbank.Daemon.Requests.{reachable-balanced}
use sysmngr.Fwbank.Daemon.Ledger.{opened, closed, pending}
use sysmngr.Fwbank.Daemon.Retry.{Fails, no_more, one_fails, attempts, gives_up}

-- An attribute is 4 for a status, 3 for a bank_id, 2 for the array of banks, 1 for a bank and 0 for a
-- field of one.
abbrev name_of : ℕ → Text
name_of n =
    if n == 2
    then codes "bank"
    else if n == 3
    then codes "bank_id"
    else if n == 4
    then codes "status"
    else []

abbrev value_of : ℕ → Text
value_of n = if n == 4 then codes "Available" else codes "7"

abbrev inside_of : ℕ → List ℕ
inside_of n = if n == 2 then 1 ∷ [] else if n == 1 then 0 ∷ 0 ∷ 0 ∷ 0 ∷ 0 ∷ 0 ∷ 0 ∷ 0 ∷ [] else []

abbrev all_rows : Policy → List ℕ → List (Option ℕ)
all_rows [] given = []
all_rows (row ∷ rows) [] = none ∷ all_rows rows []
all_rows (row ∷ rows) (a ∷ given) = some a ∷ all_rows rows given

-- Every text is read as a dump with one bank.
abbrev pub blob : Blob
blob = record {
  Attr = ℕ;
  name = name_of;
  get_string = value_of;
  get_bool = λ a. true;
  get_u32 = λ a. 1;
  has_type = λ a t. true;
  children = inside_of;
  parse = λ rows given. some (all_rows rows given);
  from_json = λ text. some (2 ∷ []);
  add_u8 = λ name x. 0;
  add_string = λ name x. 0;
  unknown_error = 9;
}

abbrev good : Pipe
good = record { chunks = codes "{}" ∷ []; failed = false }

abbrev bad : Pipe
bad = record { chunks = []; failed = false }

-- A dump is cached, and then the boot bank is set on behalf of the request 4.
abbrev events : List (Event blob)
events =
    Event.init true (child 100) (some 1)
    ∷ Event.finished 0 (child 101) good
    ∷ Event.call_set_bootbank (child 102) 4 []
    ∷ Event.finished 0 (child 103) good
    ∷ []

abbrev reached : Fwbank blob
reached = record {
  ctx = some 1;
  tm = none;
  output = some (2 ∷ []);
  retry_count = 0;
  event = record { ctx = none; tm = none; registered = false; band_id = 0; timeout = 120 };
  tasks = started_task (some Finish.dump) dump_cmd 120 (some 1) none 0 103 ∷ [];
  effects = defer_request 4 ∷ send_reply (some 4) (some (2 ∷ [])) ∷ complete_deferred (some 4) ∷ [];
}

events-reached : run blob events (start blob) ≡ some reached
unfolding run step sysmngr_init_fwbank_dump sysmngr_task_fork set_bootbank_handler
    _sysmngr_task_finish_callback validate_global_fwbank_dump
events-reached = refl

reachable-IsValid_example : IsValid blob reached
reachable-IsValid_example = reachable-IsValid blob events reached events-reached

reachable-balanced_example :
    opened blob 4 reached.effects ≡ closed blob 4 reached.effects + pending 4 reached.tasks
reachable-balanced_example = reachable-balanced blob events reached events-reached 4

bad-Fails : Fails blob bad
unfolding parsed_dump read_pipe
bad-Fails = refl

abbrev nine_counted : Fwbank blob
nine_counted = record reached { retry_count = 9 }

gives_up_example :
    let t = fwbank_dump_finish_callback blob bad (attempts blob ((bad, 104) ∷ []) nine_counted) in
    (t.retry_count ≡ 10) × (t.tm ≡ none) × (t.output ≡ some (2 ∷ []))
gives_up_example =
    gives_up blob ((bad, 104) ∷ []) bad nine_counted (one_fails bad-Fails no_more) bad-Fails refl
      refl

seven_foreign : text_eq (codes "7") (snprintf_s 16 (decimal 0)) ≡ false
unfolding decimal digits_before
seven_foreign = refl

receive_sysupgrade-foreign_example :
    fwbank_receive_sysupgrade blob (child 105) (some (3 ∷ 4 ∷ [])) reached ≡ reached
receive_sysupgrade-foreign_example =
    receive_sysupgrade-foreign blob (child 105) reached 3 (4 ∷ []) no_attr refl seven_foreign

receive_sysupgrade-available_example :
    let after = fwbank_receive_sysupgrade blob (child 105) (some (4 ∷ 3 ∷ [])) reached in
    (after.event.tm ≡ none)
    × (after.event.registered ≡ false)
    × (after.output ≡ reached.output)
    × DumpForked blob (child 105) reached after
receive_sysupgrade-available_example =
    receive_sysupgrade-available blob (child 105) reached 4 (3 ∷ []) none_left refl refl
