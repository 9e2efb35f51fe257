-- ===== src/Fwbank/Daemon/Invariant.antt =====
-- src/fwbank.c: what holds in every state of the fwbank part: the number of retries, the cached dump and
-- the wait for the sysupgrade event.
use sysmngr.Prelude.{
  ℕ, none-some, IfSome, IfSome-some, IfSome-bind, zero, suc, ◌≡◌, Bool, true, false, Bool-cases,
  inl, inr, Option, none, some, ◌>>=◌, List, [], ◌∷◌, arith, ltb, get_or,
}
use sysmngr.Prelude.Strings.{Text}
use sysmngr.Prelude.Int.{ℤ, pos, negsuc}
use sysmngr.Fwbank.{
  Blob, Fork, no_child, Finish, Task, Fwbank, dump_cmd, timeout_callback, fwbank_dump_timer,
  sysmngr_init_fwbank_dump, freed, free_global_fwbank_dump, sysmngr_clean_fwbank_dump,
}
use sysmngr.Fwbank.Tasks.{Pipe, _sysmngr_task_finish_callback}
use sysmngr.Fwbank.Ubus.{
  Scan, after_scan, fwbank_listen_timeout, fwbank_receive_sysupgrade, dump_handler, reply_failure,
  sysmngr_fwbank_set_bootbank, set_bootbank_parsed, set_bootbank_handler, sysmngr_fwbank_upgrade,
  upgrade_parsed, failure, string_of, upgrade_handler,
}
use sysmngr.Fwbank.Daemon.{Event, pick, finish_picked, step, run, start}
use sysmngr.Fwbank.Daemon.Kept.{
  Cached, nothing_cached, idle, IsValid, fork-IsValid, run_finish-IsValid, complete-IsValid,
}

module _ (b : Blob) where
  scan-IsValid :
      (fork : Fork) (scan : Scan) (s : Fwbank b)
      → IsValid b s
      → IsValid b (after_scan b fork scan s)
  scan-IsValid fork Scan.returned s v = v
  scan-IsValid fork Scan.refresh s v =
      let w = fork-IsValid b fork (some Finish.dump) dump_cmd 120 none 0 s v in
      record { bounded = w.bounded; cached = w.cached; listening = idle }
  scan-IsValid fork Scan.finished s v = record {
    bounded = v.bounded;
    cached = v.cached;
    listening = idle;
  }

  reply_failure-IsValid :
      (req : ℕ) (a : b.Attr) (code : ℤ) (s : Fwbank b)
      → IsValid b s
      → IsValid b (reply_failure b req a (code, s)).1
  reply_failure-IsValid req a (pos zero) s v = v
  reply_failure-IsValid req a (pos (suc n)) s v = v
  reply_failure-IsValid req a (negsuc n) s v = v

  freed-IsCached : (o : Option (List b.Attr)) → Cached b o → Cached b (freed b o)
  freed-IsCached (some (a ∷ rest)) c = nothing_cached
  freed-IsCached (some []) c = c
  freed-IsCached none c = c

  init-IsValid :
      (exists : Bool) (fork : Fork) (ctx : Option ℕ) (s : Fwbank b)
      → IsValid b s
      → IsValid b (sysmngr_init_fwbank_dump b exists fork ctx s).1
  unfolding sysmngr_init_fwbank_dump
  init-IsValid true fork ctx s v = fork-IsValid b fork (some Finish.dump) dump_cmd 120 none 0 _ v
  init-IsValid false fork ctx s v = v

  kill-IsValid : (t : Task) (s : Fwbank b) → IsValid b s → IsValid b (timeout_callback b t s)
  unfolding timeout_callback
  kill-IsValid t s v = elim (Bool-cases (ltb 0 t.pid)) [ inl e ↦ rw e v | inr e ↦ rw e v ]

  set_bootbank_parsed-IsValid :
      (fork : Fork) (req : ℕ) (tb : Option (List (Option b.Attr))) (s : Fwbank b)
      → IsValid b s
      → IsValid b (set_bootbank_parsed b fork req tb s).1
  unfolding sysmngr_fwbank_set_bootbank
  set_bootbank_parsed-IsValid fork req none s v = v
  set_bootbank_parsed-IsValid fork req (some tb) s v =
      reply_failure-IsValid req _ _ _ (fork-IsValid b fork _ _ _ _ _ s v)

  finish-IsValid :
      (fork : Fork) (p : Pipe) (s : Fwbank b) (picked : Task × List Task)
      → IsValid b s
      → IsValid b (finish_picked b fork p s picked)
  unfolding _sysmngr_task_finish_callback
  finish-IsValid fork p s (t, ts) v =
      complete-IsValid b t.ctx t.req t.new_req _ (run_finish-IsValid b fork p t t.finishcb _ v)

  upgrade_path-IsValid :
      (fork : Fork) (req : ℕ) (path : Option Text) (auto : Bool) (bank_id : ℕ) (keep : Bool)
      (s : Fwbank b)
      → IsValid b s
      → IfSome (IsValid b) (
          failure b req (sysmngr_fwbank_upgrade b fork path auto bank_id keep (some req) s)
          >>= λ answered. some answered.1)
  unfolding sysmngr_fwbank_upgrade
  upgrade_path-IsValid fork req none auto bank_id keep s v = λ t e. absurd (none-some t e)
  upgrade_path-IsValid fork req (some path) auto bank_id keep s v =
      IfSome-some (IsValid b) _
        (reply_failure-IsValid req _ _ _ (fork-IsValid b fork _ _ _ _ _ s v))

  upgrade_parsed-IsValid :
      (fork : Fork) (req : ℕ) (keep : Text) (tb : Option (List (Option b.Attr))) (s : Fwbank b)
      → IsValid b s
      → IfSome (IsValid b) (upgrade_parsed b fork req keep tb s >>= λ answered. some answered.1)
  upgrade_parsed-IsValid fork req keep none s v = IfSome-some (IsValid b) s v
  upgrade_parsed-IsValid fork req keep (some tb) s v =
      upgrade_path-IsValid fork req (string_of b (get_or tb 0 none)) _ _ _ s v

  step-IsValid : (e : Event b) (s : Fwbank b) → IsValid b s → IfSome (IsValid b) (step b e s)
  unfolding step fwbank_dump_timer fwbank_receive_sysupgrade fwbank_listen_timeout dump_handler
      set_bootbank_handler upgrade_handler sysmngr_clean_fwbank_dump free_global_fwbank_dump
  step-IsValid (Event.init exists fork ctx) s v =
      IfSome-some (IsValid b) _ (init-IsValid exists fork ctx s v)
  step-IsValid (Event.dump_timer exists fork) s v =
      IfSome-some (IsValid b) _ (init-IsValid exists fork s.ctx (record s { tm = none }) v)
  step-IsValid (Event.finished i fork p) s v =
      IfSome-bind (IsValid b) (pick b i s.tasks) _
        (λ picked _. IfSome-some (IsValid b) _ (finish-IsValid fork p s picked v))
  step-IsValid (Event.timed_out i) s v =
      IfSome-bind (IsValid b) (pick b i s.tasks) _
        (λ picked _. IfSome-some (IsValid b) _ (kill-IsValid picked.0 _ v))
  step-IsValid (Event.sysupgrade fork none) s v = IfSome-some (IsValid b) s v
  step-IsValid (Event.sysupgrade fork (some msg)) s v =
      IfSome-some (IsValid b) _ (scan-IsValid fork _ s v)
  step-IsValid Event.listen_timeout s v =
      IfSome-some (IsValid b) _ (scan-IsValid no_child Scan.finished s v)
  step-IsValid (Event.call_dump req) s v = IfSome-some (IsValid b) _ v
  step-IsValid (Event.call_set_bootbank fork req msg) s v =
      IfSome-some (IsValid b) _ (set_bootbank_parsed-IsValid fork req _ s v)
  step-IsValid (Event.call_upgrade fork req keep msg) s v =
      upgrade_parsed-IsValid fork req keep _ s v
  step-IsValid Event.clean s v = IfSome-some (IsValid b) _ (record {
    bounded = v.bounded;
    cached = freed-IsCached s.output v.cached;
    listening = v.listening;
  })

  run-IsValid : (es : List (Event b)) (s : Fwbank b) → IsValid b s → IfSome (IsValid b) (run b es s)
  unfolding run
  run-IsValid [] s v = IfSome-some (IsValid b) s v
  run-IsValid (e ∷ es) s v =
      IfSome-bind (IsValid b) (step b e s) (run b es)
        (λ t made. run-IsValid es t (step-IsValid e s v t made))

  -- In every state that the fwbank part reaches from its start, at most ten retries were counted, the
  -- cached dump is empty or the first field of a dump with a valid bank, and the handler of sysupgrade
  -- is registered exactly as long as the timer that ends the wait runs.
  pub reachable-IsValid :
      (es : List (Event b)) (s : Fwbank b) → run b es (start b) ≡ some s → IsValid b s
  reachable-IsValid es s r =
      run-IsValid es (start b)
        (record { bounded = omega arith; cached = nothing_cached; listening = idle }) s r
