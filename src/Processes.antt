-- ===== src/Processes.antt =====
-- The process part of src/processes.c: the list of processes, the events on its length and the timer that
-- refreshes it. A timer is none or its milliseconds.
pub mod Observer
pub mod Events
pub mod Alive
pub mod Values
use sysmngr.Prelude.{
  ℕ, zero, suc, ◌+◌, ◌-◌, ◌*◌, ◌==◌, Bool, true, false, Option, none, some, List, [], ◌∷◌, ◌++◌,
  if◌then◌else◌, ltb, codes, snprintf_s, length,
}
use sysmngr.Prelude.Strings.{Text}
use sysmngr.Prelude.Int.{ℤ, pos, pos_part, ltb_ℤ, leb_ℤ}
use sysmngr.Libc.{strtol, to_int, decimal}
use sysmngr.Uci.{Uci}
use sysmngr.Procps.{ProcLib, ProcessEntry, read_entry}

-- An event on the bus and the object paths in its array "instances".
pub record Event : Type 0 where
  pub method : Text
  pub instances : List Text

-- g_process_ctx, and the events sent. `pending` counts the asynchronous calls of tr069 that are not complete.
pub record ProcessCtx : Type 0 where
  pub instance_timer : Option ℤ
  pub list : List ProcessEntry
  pub refresh_interval : ℤ
  pub process_num : ℕ
  pub pending : ℕ
  pub events : List Event

-- What a refresh finds: the names in /proc, none if it cannot be opened, and the result of each calloc.
pub record Proc : Type 0 where
  pub lib : ProcLib
  pub dir : Option (List Text)
  pub allocated : ℕ → Bool

unfoldable pub obj_path : ℕ → Text
obj_path i = snprintf_s 256 (codes "Device.DeviceInfo.ProcessStatus.Process." ++ decimal i)

-- The paths from `i` on upwards, and from `i` on downwards.
abbrev pub added_paths : ℕ → ℕ → List Text
added_paths zero i = []
added_paths (suc n) i = obj_path i ∷ added_paths n (i + 1)

abbrev pub deleted_paths : ℕ → ℕ → List Text
deleted_paths zero i = []
deleted_paths (suc n) i = obj_path i ∷ deleted_paths n (i - 1)

-- The difference is that of `current` and the number in the context, and not 0.
unfoldable pub broadcast_add_del_event : ℕ → ProcessCtx → ProcessCtx
broadcast_add_del_event current s =
    if s.process_num == 0
    then s
    else if ltb s.process_num current
    then record s {
      events =
          s.events
          ++ (record {
            method = codes "bbfdm.AddObj";
            instances = added_paths (current - s.process_num) (s.process_num + 1);
          }
              ∷ []);
    }
    else record s {
      events =
          s.events
          ++ (record {
            method = codes "bbfdm.DelObj";
            instances = deleted_paths (s.process_num - current) s.process_num;
          }
              ∷ []);
    }

abbrev pub set_process_num : ℕ → ProcessCtx → ProcessCtx
set_process_num current s = record s { process_num = current }

-- The end of the loop: no event for a number that has not changed.
abbrev pub announce : ℕ → ProcessCtx → ProcessCtx
announce current s =
    if current == s.process_num
    then s
    else set_process_num current (broadcast_add_del_event current s)

abbrev pub add_tail : ProcessEntry → ProcessCtx → ProcessCtx
add_tail entry s = record s { list = s.list ++ (entry ∷ []) }

-- A round of the loop: an entry that is not read is passed over, and a failed calloc ends the function.
abbrev pub with_entry :
    Bool → Option ProcessEntry → (ℕ → ProcessCtx → ProcessCtx) → ℕ → ProcessCtx → ProcessCtx
with_entry allocated none rest current s = rest current s
with_entry true (some entry) rest current s = rest (current + 1) (add_tail entry s)
with_entry false (some entry) rest current s = s

-- The loop over the directory; `current` is cur_process_num.
unfoldable pub read_entries : Proc → List Text → ℕ → ProcessCtx → ProcessCtx
unfolding broadcast_add_del_event
read_entries p [] current s = announce current s
read_entries p (name ∷ names) current s =
    with_entry (p.allocated current) (read_entry p.lib name) (λ n t. read_entries p names n t)
      current s

abbrev pub read_dir : Proc → Option (List Text) → ProcessCtx → ProcessCtx
read_dir p none s = s
read_dir p (some names) s = read_entries p names 0 s

unfoldable pub init_process_list : Proc → ProcessCtx → ProcessCtx
unfolding read_entries
init_process_list p s = read_dir p p.dir s

unfoldable pub free_process_list : ProcessCtx → ProcessCtx
free_process_list s = record s { list = [] }

abbrev pub schedule : ProcessCtx → ProcessCtx
schedule s =
    if ltb_ℤ (pos 0) s.refresh_interval
    then record s { instance_timer = some (to_int (pos (pos_part s.refresh_interval * 1000))) }
    else s

unfoldable pub run_refresh_process_list : Proc → ProcessCtx → ProcessCtx
unfolding init_process_list free_process_list
run_refresh_process_list p s = schedule (init_process_list p (free_process_list s))

unfoldable pub ubus_call_complete_cb : Proc → ProcessCtx → ProcessCtx
unfolding run_refresh_process_list
ubus_call_complete_cb p s = run_refresh_process_list p (record s { pending = s.pending - 1 })

-- The timer has expired. `found` says that the call of tr069 could be made.
unfoldable pub process_refresh_instance_timer : Bool → Proc → ProcessCtx → ProcessCtx
unfolding run_refresh_process_list
process_refresh_instance_timer found p s =
    if found
    then record s { instance_timer = none; pending = s.pending + 1 }
    else run_refresh_process_list p (record s { instance_timer = none })

-- The call is not cancelled by a new start, and its events stay sent.
abbrev pub get_instance_refresh_interval : (u : Uci) → u.Config → ℤ
get_instance_refresh_interval u config = to_int (
    strtol (
      u.get config (codes "sysmngr", codes "process", codes "instance_refresh_interval") (codes "0")
        8))

unfoldable pub sysmngr_process_init : (u : Uci) → u.Config → Proc → ProcessCtx → ProcessCtx
unfolding run_refresh_process_list
sysmngr_process_init u config p s = run_refresh_process_list p (record s {
  refresh_interval = get_instance_refresh_interval u config;
  list = [];
  process_num = 0;
})

unfoldable pub sysmngr_process_clean : ProcessCtx → ProcessCtx
unfolding free_process_list
sysmngr_process_clean s = record (free_process_list s) { instance_timer = none }

-- The instances from `id + 1` on and their data, up to the first that stops the browsing.
abbrev pub link_instances : (ℕ → Bool) → ℕ → List ProcessEntry → List (ℕ × ProcessEntry)
link_instances stops id [] = []
link_instances stops id (entry ∷ rest) =
    let more = link_instances stops (id + 1) rest in
    if stops (id + 1) then (id + 1, entry) ∷ [] else (id + 1, entry) ∷ more

unfoldable pub browse_process_entries_inst :
    (ℕ → Bool) → ProcessCtx → List (ℕ × ProcessEntry) × ProcessCtx
browse_process_entries_inst stops s = (
  link_instances stops 0 s.list,
  if leb_ℤ s.refresh_interval (pos 0) then record s { instance_timer = some (pos 2000) } else s,
)
