-- ===== src/Fwbank/Daemon/Kept.antt =====
-- src/fwbank.c: the invariant of the fwbank part, which a fork and the finish callbacks keep.
use sysmngr.Prelude.{
  ℕ, if_some, ◌≤◌, ◌≡◌, refl, subst, Bool, true, false, Bool-cases, inl, inr, Option, none, some,
  ◌>>=◌, List, [], ◌∷◌, arith, ltb, ltb→lt, if◌then◌else◌, take,
}
use sysmngr.Prelude.Strings.{Text}
use sysmngr.Fwbank.{
  Blob, Fork, no_memory, no_pipe, no_child, child, Finish, Task, Fwbank,
  validate_global_fwbank_dump, sysmngr_task_fork, dump_cmd,
}
use sysmngr.Fwbank.Tasks.{
  Pipe, read_pipe, parsed_dump, store_or_retry, fwbank_dump_finish_callback, set_bootbank_answer,
  reply_if, upgrade_answer, wait_if, fwbank_set_bootbank_finish_callback,
  fwbank_upgrade_finish_callback, fwbank_wait_for_sysupgrade_event, is_set_bootbank_success,
  run_finish, complete_if,
}

module _ (b : Blob) where
  -- The cached dump is empty, or it is the first field of a dump with a valid bank.
  pub data Cached : Option (List b.Attr) → Type 0 where
    nothing_cached : Cached none
    first_field :
        (temp : List b.Attr)
        → validate_global_fwbank_dump b temp ≡ true
        → Cached (some (take 1 temp))

  pub data IsListening : Option ℕ → Bool → Type 0 where
    waiting : (ms : ℕ) → IsListening (some ms) true
    idle : IsListening none false

  -- At most ten retries; the cached dump is a valid one; the event handler is registered as long as the
  -- timer of its end runs.
  pub record Invariant (retries : ℕ) (output : Option (List b.Attr)) (tm : Option ℕ)
      (registered : Bool) : Type 0 where
    pub bounded : retries ≤ 10
    pub cached : Cached output
    pub listening : IsListening tm registered

  abbrev pub IsValid : Fwbank b → Type 0
  IsValid s = Invariant s.retry_count s.output s.event.tm s.event.registered

  pub fork-IsValid :
      (fork : Fork) (f : Option Finish) (command : Text) (timeout : ℕ) (req : Option ℕ)
      (bank_id : ℕ) (s : Fwbank b)
      → IsValid s
      → IsValid (sysmngr_task_fork b fork f command timeout req bank_id s).1
  unfolding sysmngr_task_fork
  fork-IsValid (child pid) f command timeout req bank_id s v = v
  fork-IsValid no_memory f command timeout req bank_id s v = v
  fork-IsValid no_pipe f command timeout req bank_id s v = v
  fork-IsValid no_child f command timeout req bank_id s v = v

  pub checked-valid :
      (o : Option (List b.Attr)) (temp : List b.Attr)
      → (o >>= λ t. if validate_global_fwbank_dump b t then some t else none) ≡ some temp
      → validate_global_fwbank_dump b temp ≡ true
  checked-valid none temp e = cc
  checked-valid (some t) temp e =
      let (valid, same) = if_some (validate_global_fwbank_dump b t) t temp e in
      subst (λ l. validate_global_fwbank_dump b l ≡ true) same valid

  pub parsed_dump-valid :
      (o : Option Text) (temp : List b.Attr)
      → parsed_dump b o ≡ some temp
      → validate_global_fwbank_dump b temp ≡ true
  unfolding parsed_dump
  parsed_dump-valid none temp e = cc
  parsed_dump-valid (some []) temp e = cc
  parsed_dump-valid (some (c ∷ s)) temp e = checked-valid (b.from_json (c ∷ s)) temp e

  pub store-IsValid :
      (o : Option (List b.Attr)) (s : Fwbank b)
      → ((temp : List b.Attr) → o ≡ some temp → validate_global_fwbank_dump b temp ≡ true)
      → IsValid s
      → IsValid (store_or_retry b o s)
  unfolding store_or_retry
  store-IsValid none s h v = elim (Bool-cases (ltb s.retry_count 10)) [
    | inl e ↦ rw e (record {
      bounded = omega (arith, ltb→lt s.retry_count 10 e);
      cached = v.cached;
      listening = v.listening;
    })
    | inr e ↦ rw e v
  ]
  store-IsValid (some temp) s h v = record {
    bounded = v.bounded;
    cached = first_field temp (h temp refl);
    listening = v.listening;
  }

  pub reply-IsValid :
      (ctx req : Option ℕ) (o : List b.Attr) (s : Fwbank b)
      → IsValid s
      → IsValid (reply_if b ctx req o s)
  reply-IsValid none req o s v = v
  reply-IsValid (some c) req o s v = v

  pub set_bootbank-IsValid :
      (fork : Fork) (ctx req : Option ℕ) (o : Option (List b.Attr)) (s : Fwbank b)
      → IsValid s
      → IsValid (set_bootbank_answer b fork ctx req o s)
  set_bootbank-IsValid fork ctx req none s v = v
  set_bootbank-IsValid fork ctx req (some o) s v =
      let t = reply-IsValid ctx req o s v in
      elim (Bool-cases (is_set_bootbank_success b o)) [
        | inl e ↦ rw e (fork-IsValid fork (some Finish.dump) dump_cmd 120 none 0 _ t)
        | inr e ↦ rw e t
      ]

  pub wait-IsValid :
      (ctx : Option ℕ) (success : Bool) (bank_id : ℕ) (s : Fwbank b)
      → IsValid s
      → IsValid (wait_if b ctx success bank_id s)
  unfolding fwbank_wait_for_sysupgrade_event
  wait-IsValid (some c) true bank_id s v = record {
    bounded = v.bounded;
    cached = v.cached;
    listening = waiting _;
  }
  wait-IsValid (some c) false bank_id s v = v
  wait-IsValid none success bank_id s v = v

  pub upgrade-IsValid :
      (ctx req : Option ℕ) (bank_id : ℕ) (o : Option (List b.Attr)) (s : Fwbank b)
      → IsValid s
      → IsValid (upgrade_answer b ctx req bank_id o s)
  upgrade-IsValid ctx req bank_id none s v = v
  upgrade-IsValid ctx req bank_id (some o) s v =
      wait-IsValid ctx _ bank_id _ (reply-IsValid ctx req o s v)

  pub run_finish-IsValid :
      (fork : Fork) (p : Pipe) (t : Task) (f : Option Finish) (s : Fwbank b)
      → IsValid s
      → IsValid (run_finish b fork p t f s)
  unfolding fwbank_dump_finish_callback fwbank_set_bootbank_finish_callback
      fwbank_upgrade_finish_callback
  run_finish-IsValid fork p t none s v = v
  run_finish-IsValid fork p t (some Finish.dump) s v =
      store-IsValid (parsed_dump b (read_pipe p)) s (parsed_dump-valid (read_pipe p)) v
  run_finish-IsValid fork p t (some Finish.set_bootbank) s v =
      set_bootbank-IsValid fork t.ctx t.new_req (read_pipe p >>= b.from_json) s v
  run_finish-IsValid fork p t (some Finish.upgrade) s v =
      upgrade-IsValid t.ctx t.new_req t.bank_id (read_pipe p >>= b.from_json) s v

  pub complete-IsValid :
      (ctx req n : Option ℕ) (s : Fwbank b) → IsValid s → IsValid (complete_if b ctx req n s)
  complete-IsValid (some c) (some r) n s v = v
  complete-IsValid (some c) none n s v = v
  complete-IsValid none req n s v = v
