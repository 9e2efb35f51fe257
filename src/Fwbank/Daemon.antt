-- ===== src/Fwbank/Daemon.antt =====
-- The fwbank part as a state machine: one step for each callback of uloop and each ubus call.
pub mod Kept
pub mod Invariant
pub mod Retry
pub mod Ledger
pub mod Callbacks
pub mod Requests
use sysmngr.Prelude.{ℕ, zero, suc, Bool, false, Option, none, some, ◌>>=◌, List, [], ◌∷◌}
use sysmngr.Prelude.Strings.{Text}
use sysmngr.Fwbank.{
  Blob, Fork, Task, Fwbank, timeout_callback, fwbank_dump_timer, sysmngr_init_fwbank_dump,
  sysmngr_clean_fwbank_dump,
}
use sysmngr.Fwbank.Tasks.{Pipe, _sysmngr_task_finish_callback}
use sysmngr.Fwbank.Ubus.{
  fwbank_listen_timeout, fwbank_receive_sysupgrade, dump_handler, set_bootbank_handler,
  upgrade_handler,
}

module _ (b : Blob) where
  -- A task is named by its place among the tasks that run.
  pub data Event : Type 0 where
    init : Bool → Fork → Option ℕ → Event
    dump_timer : Bool → Fork → Event
    finished : ℕ → Fork → Pipe → Event
    timed_out : ℕ → Event
    sysupgrade : Fork → Option (List b.Attr) → Event
    listen_timeout : Event
    call_dump : ℕ → Event
    call_set_bootbank : Fork → ℕ → List b.Attr → Event
    call_upgrade : Fork → ℕ → Text → List b.Attr → Event
    clean : Event

  -- A task and the tasks that stay.
  abbrev pub pick : ℕ → List Task → Option (Task × List Task)
  pick i [] = none
  pick zero (t ∷ ts) = some (t, ts)
  pick (suc i) (t ∷ ts) = pick i ts >>= λ (u, us). some (u, t ∷ us)

  abbrev pub finish_picked : Fork → Pipe → Fwbank b → Task × List Task → Fwbank b
  finish_picked fork p s (t, ts) =
      _sysmngr_task_finish_callback b fork p t (record s { tasks = ts })

  -- The task stays until its child is gone; its timer has run out.
  abbrev pub time_out : ℕ → List Task → List Task
  time_out i [] = []
  time_out zero (t ∷ ts) = record t { timeoutcb = none } ∷ ts
  time_out (suc i) (t ∷ ts) = t ∷ time_out i ts

  abbrev pub timed_out_picked : ℕ → Fwbank b → Task × List Task → Fwbank b
  timed_out_picked i s (t, _) = timeout_callback b t (record s { tasks = time_out i s.tasks })

  -- none: a task that is not there, or what C does not define.
  unfoldable pub step : Event → Fwbank b → Option (Fwbank b)
  step (init exists fork ctx) s = some (sysmngr_init_fwbank_dump b exists fork ctx s).1
  step (dump_timer exists fork) s = some (fwbank_dump_timer b exists fork s)
  step (finished i fork p) s = pick i s.tasks >>= λ picked. some (finish_picked fork p s picked)
  step (timed_out i) s = pick i s.tasks >>= λ picked. some (timed_out_picked i s picked)
  step (sysupgrade fork msg) s = some (fwbank_receive_sysupgrade b fork msg s)
  step listen_timeout s = some (fwbank_listen_timeout b s)
  step (call_dump req) s = some (dump_handler b req s).1
  step (call_set_bootbank fork req msg) s = some (set_bootbank_handler b fork req msg s).1
  step (call_upgrade fork req keep msg) s =
      upgrade_handler b fork req keep msg s >>= λ answered. some answered.1
  step clean s = some (sysmngr_clean_fwbank_dump b s)

  unfoldable pub run : List Event → Fwbank b → Option (Fwbank b)
  run [] s = some s
  run (e ∷ es) s = step e s >>= run es

  abbrev pub start : Fwbank b
  start = record {
    ctx = none;
    tm = none;
    output = none;
    retry_count = 0;
    event = record { ctx = none; tm = none; registered = false; band_id = 0; timeout = 120 };
    tasks = [];
    effects = [];
  }
