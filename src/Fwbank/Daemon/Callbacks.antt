-- ===== src/Fwbank/Daemon/Callbacks.antt =====
-- src/fwbank.c: the ubus requests that a finish callback and a call leave open.
use sysmngr.Prelude.{
  IfSome, IfSome-some, none-some, get_or, ℕ, zero, suc, Bool, true, false, Bool-cases, inl, inr,
  Option, none, some, ◌>>=◌, List, ltb,
}
use sysmngr.Prelude.Strings.{Text}
use sysmngr.Prelude.Int.{ℤ, pos, negsuc}
use sysmngr.Fwbank.{Blob, Fork, Finish, Task, Fwbank, sysmngr_init_fwbank_dump, dump_cmd}
use sysmngr.Fwbank.Tasks.{
  Pipe, read_pipe, parsed_dump, store_or_retry, fwbank_dump_finish_callback, set_bootbank_answer,
  reply_if, upgrade_answer, wait_if, fwbank_set_bootbank_finish_callback,
  fwbank_upgrade_finish_callback, fwbank_wait_for_sysupgrade_event, is_set_bootbank_success,
  run_finish,
}
use sysmngr.Fwbank.Ubus.{
  Scan, after_scan, reply_failure, sysmngr_fwbank_set_bootbank, set_bootbank_parsed,
  sysmngr_fwbank_upgrade, upgrade_parsed, failure, string_of,
}
use sysmngr.Fwbank.Daemon.Ledger.{Owes, reply-Owes, fork-Owes}

module _ (b : Blob) where
  reply_if-Owes :
      (due ctx req : Option ℕ) (o : List b.Attr) (s : Fwbank b)
      → Owes b due s
      → Owes b due (reply_if b ctx req o s)
  reply_if-Owes due none req o s v = v
  reply_if-Owes due (some c) req o s v = reply-Owes b due req (some o) s v

  store-Owes :
      (due : Option ℕ) (o : Option (List b.Attr)) (s : Fwbank b)
      → Owes b due s
      → Owes b due (store_or_retry b o s)
  unfolding store_or_retry
  store-Owes due none s v = elim (Bool-cases (ltb s.retry_count 10)) [
    | inl e ↦ rw e v
    | inr e ↦ rw e v
  ]
  store-Owes due (some temp) s v = v

  set_bootbank-Owes :
      (due : Option ℕ) (fork : Fork) (ctx req : Option ℕ) (o : Option (List b.Attr)) (s : Fwbank b)
      → Owes b due s
      → Owes b due (set_bootbank_answer b fork ctx req o s)
  set_bootbank-Owes due fork ctx req none s v = v
  set_bootbank-Owes due fork ctx req (some o) s v =
      let t = reply_if-Owes due ctx req o s v in
      elim (Bool-cases (is_set_bootbank_success b o)) [
        | inl e ↦ rw e (fork-Owes b due fork (some Finish.dump) dump_cmd 120 none 0 _ t)
        | inr e ↦ rw e t
      ]

  wait-Owes :
      (due ctx : Option ℕ) (success : Bool) (bank_id : ℕ) (s : Fwbank b)
      → Owes b due s
      → Owes b due (wait_if b ctx success bank_id s)
  unfolding fwbank_wait_for_sysupgrade_event
  wait-Owes due (some c) true bank_id s v = v
  wait-Owes due (some c) false bank_id s v = v
  wait-Owes due none success bank_id s v = v

  upgrade-Owes :
      (due ctx req : Option ℕ) (bank_id : ℕ) (o : Option (List b.Attr)) (s : Fwbank b)
      → Owes b due s
      → Owes b due (upgrade_answer b ctx req bank_id o s)
  upgrade-Owes due ctx req bank_id none s v = v
  upgrade-Owes due ctx req bank_id (some o) s v =
      wait-Owes due ctx _ bank_id _ (reply_if-Owes due ctx req o s v)

  pub run_finish-Owes :
      (due : Option ℕ) (fork : Fork) (p : Pipe) (t : Task) (f : Option Finish) (s : Fwbank b)
      → Owes b due s
      → Owes b due (run_finish b fork p t f s)
  unfolding fwbank_dump_finish_callback fwbank_set_bootbank_finish_callback
      fwbank_upgrade_finish_callback
  run_finish-Owes due fork p t none s v = v
  run_finish-Owes due fork p t (some Finish.dump) s v =
      store-Owes due (parsed_dump b (read_pipe p)) s v
  run_finish-Owes due fork p t (some Finish.set_bootbank) s v =
      set_bootbank-Owes due fork t.ctx t.new_req (read_pipe p >>= b.from_json) s v
  run_finish-Owes due fork p t (some Finish.upgrade) s v =
      upgrade-Owes due t.ctx t.new_req t.bank_id (read_pipe p >>= b.from_json) s v

  pub scan-Owes :
      (fork : Fork) (scan : Scan) (s : Fwbank b)
      → Owes b none s
      → Owes b none (after_scan b fork scan s)
  scan-Owes fork Scan.returned s v = v
  scan-Owes fork Scan.refresh s v = fork-Owes b none fork (some Finish.dump) dump_cmd 120 none 0 s v
  scan-Owes fork Scan.finished s v = v

  reply_failure-Owes :
      (req : ℕ) (a : b.Attr) (code : ℤ) (s : Fwbank b)
      → Owes b none s
      → Owes b none (reply_failure b req a (code, s)).1
  reply_failure-Owes req a (pos zero) s v = v
  reply_failure-Owes req a (pos (suc n)) s v = reply-Owes b none (some req) _ s v
  reply_failure-Owes req a (negsuc n) s v = reply-Owes b none (some req) _ s v

  pub init-Owes :
      (exists : Bool) (fork : Fork) (ctx : Option ℕ) (s : Fwbank b)
      → Owes b none s
      → Owes b none (sysmngr_init_fwbank_dump b exists fork ctx s).1
  unfolding sysmngr_init_fwbank_dump
  init-Owes true fork ctx s v = fork-Owes b none fork (some Finish.dump) dump_cmd 120 none 0 _ v
  init-Owes false fork ctx s v = v

  pub set_bootbank_parsed-Owes :
      (fork : Fork) (req : ℕ) (tb : Option (List (Option b.Attr))) (s : Fwbank b)
      → Owes b none s
      → Owes b none (set_bootbank_parsed b fork req tb s).1
  unfolding sysmngr_fwbank_set_bootbank
  set_bootbank_parsed-Owes fork req none s v = v
  set_bootbank_parsed-Owes fork req (some tb) s v =
      reply_failure-Owes req _ _ _ (fork-Owes b none fork _ _ _ _ _ s v)

  upgrade_path-Owes :
      (fork : Fork) (req : ℕ) (path : Option Text) (auto : Bool) (bank_id : ℕ) (keep : Bool)
      (s : Fwbank b)
      → Owes b none s
      → IfSome (Owes b none) (
          failure b req (sysmngr_fwbank_upgrade b fork path auto bank_id keep (some req) s)
          >>= λ answered. some answered.1)
  unfolding sysmngr_fwbank_upgrade
  upgrade_path-Owes fork req none auto bank_id keep s v = λ t e. absurd (none-some t e)
  upgrade_path-Owes fork req (some path) auto bank_id keep s v =
      IfSome-some (Owes b none) _
        (reply_failure-Owes req _ _ _ (fork-Owes b none fork _ _ _ _ _ s v))

  pub upgrade_parsed-Owes :
      (fork : Fork) (req : ℕ) (keep : Text) (tb : Option (List (Option b.Attr))) (s : Fwbank b)
      → Owes b none s
      → IfSome (Owes b none) (upgrade_parsed b fork req keep tb s >>= λ answered. some answered.1)
  upgrade_parsed-Owes fork req keep none s v = IfSome-some (Owes b none) s v
  upgrade_parsed-Owes fork req keep (some tb) s v =
      upgrade_path-Owes fork req (string_of b (get_or tb 0 none)) _ _ _ s v
