-- ===== src/Fwbank/Daemon/Requests.antt =====
-- src/fwbank.c: the ubus requests that tasks defer, and their completion.
use sysmngr.Prelude.{
  IfSome, IfSome-some, IfSome-bind, none-some, ℕ, zero, suc, ◌+◌, ◌≡◌, refl, ap, Bool-cases, inl,
  inr, none, some, List, [], ◌∷◌, arith, ltb,
}
use sysmngr.Fwbank.{
  Blob, Fork, Task, kill, Fwbank, timeout_callback, fwbank_dump_timer, sysmngr_clean_fwbank_dump,
  free_global_fwbank_dump,
}
use sysmngr.Fwbank.Tasks.{Pipe, _sysmngr_task_finish_callback}
use sysmngr.Fwbank.Ubus.{
  fwbank_listen_timeout, fwbank_receive_sysupgrade, dump_handler, set_bootbank_handler,
  upgrade_handler,
}
use sysmngr.Fwbank.Daemon.{Event, pick, finish_picked, time_out, step, run, start}
use sysmngr.Fwbank.Daemon.Ledger.{
  one_if, owed_by, pending, AllFilled, no_task, filled, opened, closed, Owes, neutral-Owes,
  reply-Owes, complete-Owes,
}
use sysmngr.Fwbank.Daemon.Callbacks.{
  run_finish-Owes, scan-Owes, init-Owes, set_bootbank_parsed-Owes, upgrade_parsed-Owes,
}

module _ (b : Blob) where
  -- A task taken out of the tasks.
  data Picked (ts : List Task) : Task × List Task → Type 0 where
    picked_out :
        {t : Task} {us : List Task}
        → t.new_req ≡ owed_by t
        → AllFilled us
        → ((r : ℕ) → pending r ts ≡ one_if r (owed_by t) + pending r us)
        → Picked ts (t, us)

  behind :
      {ts : List Task} (t : Task) {a : Task × List Task}
      → t.new_req ≡ owed_by t
      → Picked ts a
      → Picked (t ∷ ts) (a.0, t ∷ a.1)
  behind t e (picked_out d f p) = picked_out d (filled e f) (λ r. omega (arith, p r))

  pick-Picked : (i : ℕ) (ts : List Task) → AllFilled ts → IfSome (Picked ts) (pick b i ts)
  pick-Picked i [] f = λ a e. absurd (none-some a e)
  pick-Picked zero (t ∷ ts) (filled e f) =
      IfSome-some (Picked (t ∷ ts)) (t, ts) (picked_out e f (λ r. refl))
  pick-Picked (suc i) (t ∷ ts) (filled e f) =
      IfSome-bind (Picked (t ∷ ts)) (pick b i ts) _
        (λ a made. IfSome-some (Picked (t ∷ ts)) _ (behind t e (pick-Picked i ts f a made)))

  finish-Owes :
      (fork : Fork) (p : Pipe) (s : Fwbank b) (a : Task × List Task)
      → Owes b none s
      → Picked s.tasks a
      → Owes b none (finish_picked b fork p s a)
  unfolding _sysmngr_task_finish_callback
  finish-Owes fork p s (t, us) v (picked_out e f same) = complete-Owes b t.ctx t.req t.new_req _ e (
      run_finish-Owes b t.new_req fork p t t.finishcb (record s { tasks = us })
        (record {
          balanced = λ r. omega (arith, v.balanced r, same r, ap (one_if r) e);
          all_filled = f;
        }))

  time_out-filled : (i : ℕ) (ts : List Task) → AllFilled ts → AllFilled (time_out b i ts)
  time_out-filled i [] f = f
  time_out-filled zero (t ∷ ts) (filled e f) = filled e f
  time_out-filled (suc i) (t ∷ ts) (filled e f) = filled e (time_out-filled i ts f)

  time_out-pending : (r i : ℕ) (ts : List Task) → pending r (time_out b i ts) ≡ pending r ts
  time_out-pending r i [] = refl
  time_out-pending r zero (t ∷ ts) = refl
  time_out-pending r (suc i) (t ∷ ts) = omega (arith, time_out-pending r i ts)

  kill-Owes : (t : Task) (s : Fwbank b) → Owes b none s → Owes b none (timeout_callback b t s)
  unfolding timeout_callback
  kill-Owes t s v = elim (Bool-cases (ltb 0 t.pid)) [
    | inl e ↦ rw e (neutral-Owes b none (kill t.pid) s (λ r. refl) (λ r. refl) v)
    | inr e ↦ rw e v
  ]

  timed_out-Owes :
      (i : ℕ) (s : Fwbank b)
      → Owes b none s
      → Owes b none (record s { tasks = time_out b i s.tasks })
  timed_out-Owes i s v = record {
    balanced = λ r. omega (arith, v.balanced r, time_out-pending r i s.tasks);
    all_filled = time_out-filled i s.tasks v.all_filled;
  }

  step-Owes : (e : Event b) (s : Fwbank b) → Owes b none s → IfSome (Owes b none) (step b e s)
  unfolding step fwbank_dump_timer fwbank_receive_sysupgrade fwbank_listen_timeout dump_handler
      set_bootbank_handler upgrade_handler sysmngr_clean_fwbank_dump free_global_fwbank_dump
  step-Owes (Event.init exists fork ctx) s v =
      IfSome-some (Owes b none) _ (init-Owes b exists fork ctx s v)
  step-Owes (Event.dump_timer exists fork) s v =
      IfSome-some (Owes b none) _ (init-Owes b exists fork s.ctx (record s { tm = none }) v)
  step-Owes (Event.finished i fork p) s v =
      IfSome-bind (Owes b none) (pick b i s.tasks) _ (λ a made.
        IfSome-some (Owes b none) _
          (finish-Owes fork p s a v (pick-Picked i s.tasks v.all_filled a made)))
  step-Owes (Event.timed_out i) s v =
      IfSome-bind (Owes b none) (pick b i s.tasks) _
        (λ a _. IfSome-some (Owes b none) _ (kill-Owes a.0 _ (timed_out-Owes i s v)))
  step-Owes (Event.sysupgrade fork none) s v = IfSome-some (Owes b none) s v
  step-Owes (Event.sysupgrade fork (some msg)) s v =
      IfSome-some (Owes b none) _ (scan-Owes b fork _ s v)
  step-Owes Event.listen_timeout s v = IfSome-some (Owes b none) _ v
  step-Owes (Event.call_dump req) s v =
      IfSome-some (Owes b none) _ (reply-Owes b none (some req) s.output s v)
  step-Owes (Event.call_set_bootbank fork req msg) s v =
      IfSome-some (Owes b none) _ (set_bootbank_parsed-Owes b fork req _ s v)
  step-Owes (Event.call_upgrade fork req keep msg) s v = upgrade_parsed-Owes b fork req keep _ s v
  step-Owes Event.clean s v = IfSome-some (Owes b none) _ v

  run-Owes :
      (es : List (Event b)) (s : Fwbank b) → Owes b none s → IfSome (Owes b none) (run b es s)
  unfolding run
  run-Owes [] s v = IfSome-some (Owes b none) s v
  run-Owes (e ∷ es) s v =
      IfSome-bind (Owes b none) (step b e s) (run b es)
        (λ t made. run-Owes es t (step-Owes e s v t made))

  -- In every state that the fwbank part reaches from its start, each ubus request was deferred exactly as
  -- often as it was completed or is still to be completed by a task that runs.
  pub reachable-balanced :
      (es : List (Event b)) (s : Fwbank b)
      → run b es (start b) ≡ some s
      → (r : ℕ) → opened b r s.effects ≡ closed b r s.effects + pending r s.tasks
  reachable-balanced es s made r =
      let v =
        run-Owes es (start b) (record { balanced = λ q. omega arith; all_filled = no_task }) s
          made in
      omega (arith, v.balanced r)
