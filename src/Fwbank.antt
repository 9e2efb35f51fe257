-- ===== src/Fwbank.antt =====
-- src/fwbank.c: the cached output of the fwbank script, the forked tasks that run the script, the ubus
-- object "fwbank" and the wait for the sysupgrade event after an upgrade. `b` holds what libubox and
-- json-c do with blobmsg data.
pub mod Tasks
pub mod Ubus
pub mod Sysupgrade
pub mod Daemon
use sysmngr.Prelude.{
  ℕ, ◌+◌, ◌*◌, Bool, true, false, ◌&&◌, Option, none, some, List, [], ◌∷◌, ◌++◌, ltb, if◌then◌else◌,
  codes, get_or,
}
use sysmngr.Prelude.Strings.{Text}
use sysmngr.Prelude.Int.{ℤ, pos, negsuc}

-- The blobmsg types that the policies name.
pub data BlobType : Type 0 where
  array : BlobType
  string : BlobType
  int32 : BlobType
  bool : BlobType

abbrev pub Policy : Type 0
Policy = List (Text × BlobType)

-- A buffer of blobmsg attributes is the list of its attributes.
pub record Blob : Type 1 where
  pub Attr : Type 0
  -- blobmsg_name and blobmsg_data as a string, a bool and a number.
  pub name : Attr → Text
  pub get_string : Attr → Text
  pub get_bool : Attr → Bool
  pub get_u32 : Attr → ℕ
  -- blobmsg_type.
  pub has_type : Attr → BlobType → Bool
  -- The attributes inside an array or a table.
  pub children : Attr → List Attr
  -- blobmsg_parse: one place for each row of the policy, none if the data is refused.
  pub parse : Policy → List Attr → Option (List (Option Attr))
  -- blobmsg_add_json_from_string on an empty buffer.
  pub from_json : Text → Option (List Attr)
  -- blobmsg_add_u8 and blobmsg_add_string.
  pub add_u8 : Text → Bool → Attr
  pub add_string : Text → Text → Attr
  -- UBUS_STATUS_UNKNOWN_ERROR.
  pub unknown_error : ℕ

abbrev pub dump_policy : Policy
dump_policy = (codes "bank", array) ∷ []

abbrev pub bank_policy : Policy
bank_policy =
    (codes "name", string)
    ∷ (codes "id", int32)
    ∷ (codes "active", bool)
    ∷ (codes "boot", bool)
    ∷ (codes "upgrade", bool)
    ∷ (codes "fwver", string)
    ∷ (codes "swver", string)
    ∷ (codes "status", string)
    ∷ []

abbrev pub set_bootbank_policy : Policy
set_bootbank_policy = (codes "bank", int32) ∷ []

abbrev pub upgrade_policy : Policy
upgrade_policy =
    (codes "path", string)
    ∷ (codes "auto_activate", bool)
    ∷ (codes "bank", int32)
    ∷ (codes "keep_settings", bool)
    ∷ []

abbrev pub fwbank_path : Text
fwbank_path = codes "/usr/libexec/rpcd/fwbank"

abbrev pub dump_cmd : Text
dump_cmd = fwbank_path ++ codes " call dump"

abbrev pub dump_max_retries : ℕ
dump_max_retries = 10

abbrev pub dump_retry_delay : ℕ
dump_retry_delay = 3

-- The finish callbacks of the tasks.
pub data Finish : Type 0 where
  dump : Finish
  set_bootbank : Finish
  upgrade : Finish

-- sysmngr_task_data: the requests are named by numbers. `new_req` is none as long as it is all zero, and
-- pid is 0 for a process that is not watched.
pub record Task : Type 0 where
  pub ctx : Option ℕ
  pub req : Option ℕ
  pub new_req : Option ℕ
  pub pid : ℕ
  pub timeoutcb : Option ℕ
  pub finishcb : Option Finish
  pub command : Text
  pub bank_id : ℕ

-- What a fork meets: calloc, pipe or fork fails, or there is a child.
pub data Fork : Type 0 where
  no_memory : Fork
  no_pipe : Fork
  no_child : Fork
  child : ℕ → Fork

-- fwbank_event_data, with the registration of its handler.
pub record EventData : Type 0 where
  pub ctx : Option ℕ
  pub tm : Option ℕ
  pub registered : Bool
  pub band_id : ℕ
  pub timeout : ℕ

-- task->ctx && task->req: the request that ubus_defer_request fills in.
abbrev pub deferred_request : Option ℕ → Option ℕ → Option ℕ
deferred_request (some c) (some r) = some r
deferred_request _ _ = none

abbrev pub started_task : Option Finish → Text → ℕ → Option ℕ → Option ℕ → ℕ → ℕ → Task
started_task finishcb command timeout ctx req bank_id pid = record {
  ctx = ctx;
  req = req;
  new_req = deferred_request ctx req;
  pid = elim finishcb [ none ↦ 0 | some _ ↦ pid ];
  timeoutcb = if ltb 0 timeout then some (1000 * timeout) else none;
  finishcb = finishcb;
  command = command;
  bank_id = bank_id;
}

module _ (b : Blob) where
  -- The output of the daemon. A request that ubus did not fill is none.
  pub data Effect : Type 0 where
    send_reply : Option ℕ → Option (List b.Attr) → Effect
    defer_request : ℕ → Effect
    complete_deferred : Option ℕ → Effect
    kill : ℕ → Effect

  -- g_fwbank_dump, g_retry_count, g_fwbank_event_data, the tasks that run and what was sent.
  pub record Fwbank : Type 0 where
    pub ctx : Option ℕ
    pub tm : Option ℕ
    pub output : Option (List b.Attr)
    pub retry_count : ℕ
    pub event : EventData
    pub tasks : List Task
    pub effects : List Effect

  abbrev pub send : Effect → Fwbank → Fwbank
  send e s = record s { effects = s.effects ++ (e ∷ []) }

  -- task->ctx && task->req, and then ubus_defer_request.
  abbrev pub defer_effect : Option ℕ → Option ℕ → List Effect
  defer_effect (some c) (some r) = defer_request r ∷ []
  defer_effect _ _ = []

  -- 0 or -1, and the daemon after the call.
  unfoldable pub sysmngr_task_fork :
      Fork → Option Finish → Text → ℕ → Option ℕ → ℕ → Fwbank → ℤ × Fwbank
  sysmngr_task_fork (child pid) finishcb command timeout req bank_id s = (
    pos 0,
    record s {
      tasks = s.tasks ++ (started_task finishcb command timeout s.ctx req bank_id pid ∷ []);
      effects = s.effects ++ defer_effect s.ctx req;
    },
  )
  sysmngr_task_fork _ finishcb command timeout req bank_id s = (negsuc 0, s)

  -- timeout_callback of a task; its timer has run out.
  unfoldable pub timeout_callback : Task → Fwbank → Fwbank
  timeout_callback task s = if ltb 0 task.pid then send (kill task.pid) s else s

  abbrev pub has : List (Option b.Attr) → ℕ → Bool
  has t i = elim (get_or t i none) [ none ↦ false | some _ ↦ true ]

  abbrev pub all_present : List (Option b.Attr) → Bool
  all_present t =
      has t 0
      && (has t 1 && (has t 2 && (has t 3 && (has t 4 && (has t 5 && (has t 6 && has t 7))))))

  abbrev pub is_bank : b.Attr → Bool
  is_bank entry = elim (b.parse bank_policy (b.children entry)) [
    | none ↦ false
    | some t ↦ all_present t
  ]

  -- One valid bank is enough.
  abbrev pub any_bank : List b.Attr → Bool
  any_bank [] = false
  any_bank (entry ∷ rest) = if is_bank entry then true else any_bank rest

  abbrev pub valid_banks : Option b.Attr → Bool
  valid_banks none = false
  valid_banks (some banks) = any_bank (b.children banks)

  abbrev pub has_valid_bank : Option (List (Option b.Attr)) → Bool
  has_valid_bank none = false
  has_valid_bank (some tb) = valid_banks (get_or tb 0 none)

  -- true for the source's 0, false for its -1.
  unfoldable pub validate_global_fwbank_dump : List b.Attr → Bool
  validate_global_fwbank_dump [] = false
  validate_global_fwbank_dump (a ∷ rest) = has_valid_bank (b.parse dump_policy (a ∷ rest))

  -- A buffer with nothing in it is left as it is.
  abbrev pub freed : Option (List b.Attr) → Option (List b.Attr)
  freed (some (a ∷ rest)) = none
  freed other = other

  unfoldable pub free_global_fwbank_dump : Fwbank → Fwbank
  free_global_fwbank_dump s = record s { output = freed s.output }

  abbrev pub init_global_fwbank_dump : Fork → Fwbank → ℤ × Fwbank
  init_global_fwbank_dump fork s = sysmngr_task_fork fork (some dump) dump_cmd 120 none 0 s

  -- `exists`: the fwbank script is there.
  unfoldable pub sysmngr_init_fwbank_dump : Bool → Fork → Option ℕ → Fwbank → ℤ × Fwbank
  sysmngr_init_fwbank_dump exists fork ctx s =
      let t = record s { ctx = ctx } in
      if exists then init_global_fwbank_dump fork t else (negsuc 0, t)

  -- The timer of the dump has run out.
  unfoldable pub fwbank_dump_timer : Bool → Fork → Fwbank → Fwbank
  unfolding sysmngr_init_fwbank_dump
  fwbank_dump_timer exists fork s =
      (sysmngr_init_fwbank_dump exists fork s.ctx (record s { tm = none })).1

  unfoldable pub sysmngr_clean_fwbank_dump : Fwbank → Fwbank
  unfolding free_global_fwbank_dump
  sysmngr_clean_fwbank_dump s = free_global_fwbank_dump s
