-- ===== src/Fwbank/Daemon/Ledger.antt =====
-- src/fwbank.c: how the deferring and the completing of ubus requests is counted, and what forks,
-- replies and completions do to the count.
use sysmngr.Prelude.{
  ℕ, ◌+◌, ◌≡◌, refl, subst, Option, none, some, List, [], ◌∷◌, ◌++◌, arith, ◌==◌, if◌then◌else◌,
}
use sysmngr.Prelude.Strings.{Text}
use sysmngr.Fwbank.{
  Blob, Fork, no_memory, no_pipe, no_child, child, Finish, Task, Effect, send_reply, defer_request,
  complete_deferred, kill, send, Fwbank, deferred_request, defer_effect, started_task,
  sysmngr_task_fork,
}
use sysmngr.Fwbank.Tasks.{complete_if}

-- 1 for the request.
abbrev pub one_if : ℕ → Option ℕ → ℕ
one_if r none = 0
one_if r (some q) = if q == r then 1 else 0

-- The tasks that are to complete a request.
abbrev pub owed_by : Task → Option ℕ
owed_by t = deferred_request t.ctx t.req

abbrev pub pending : ℕ → List Task → ℕ
pending r [] = 0
pending r (t ∷ ts) = one_if r (owed_by t) + pending r ts

pub pending-append :
    (r : ℕ) (ts us : List Task) → pending r (ts ++ us) ≡ pending r ts + pending r us
pending-append r [] us = omega arith
pending-append r (t ∷ ts) us = omega (arith, pending-append r ts us)

-- The request that ubus filled in for the task is the one deferred.
pub data AllFilled : List Task → Type 0 where
  no_task : AllFilled []
  filled : {t : Task} {ts : List Task} → t.new_req ≡ owed_by t → AllFilled ts → AllFilled (t ∷ ts)

pub AllFilled-append :
    (ts : List Task) (t : Task) → AllFilled ts → t.new_req ≡ owed_by t → AllFilled (ts ++ (t ∷ []))
AllFilled-append [] t no_task e = filled e no_task
AllFilled-append (u ∷ ts) t (filled d f) e = filled d (AllFilled-append ts t f e)

module _ (b : Blob) where
  -- How often the request was deferred_request, and how often it was completed.
  abbrev pub opened : ℕ → List (Effect b) → ℕ
  opened r [] = 0
  opened r (defer_request q ∷ es) = one_if r (some q) + opened r es
  opened r (_ ∷ es) = opened r es

  abbrev pub closed : ℕ → List (Effect b) → ℕ
  closed r [] = 0
  closed r (complete_deferred q ∷ es) = one_if r q + closed r es
  closed r (_ ∷ es) = closed r es

  pub opened-append :
      (r : ℕ) (es fs : List (Effect b)) → opened r (es ++ fs) ≡ opened r es + opened r fs
  opened-append r [] fs = omega arith
  opened-append r (send_reply q o ∷ es) fs = opened-append r es fs
  opened-append r (defer_request q ∷ es) fs = omega (arith, opened-append r es fs)
  opened-append r (complete_deferred q ∷ es) fs = opened-append r es fs
  opened-append r (kill p ∷ es) fs = opened-append r es fs

  pub closed-append :
      (r : ℕ) (es fs : List (Effect b)) → closed r (es ++ fs) ≡ closed r es + closed r fs
  closed-append r [] fs = omega arith
  closed-append r (send_reply q o ∷ es) fs = closed-append r es fs
  closed-append r (defer_request q ∷ es) fs = closed-append r es fs
  closed-append r (complete_deferred q ∷ es) fs = omega (arith, closed-append r es fs)
  closed-append r (kill p ∷ es) fs = closed-append r es fs

  -- Every request was deferred as often as it was completed or is still to be completed, by the task
  -- that has just ended or by one that runs.
  pub record Ledger (due : Option ℕ) (es : List (Effect b)) (ts : List Task) : Type 0 where
    pub balanced : (r : ℕ) → opened r es ≡ closed r es + (one_if r due + pending r ts)
    pub all_filled : AllFilled ts

  abbrev pub Owes : Option ℕ → Fwbank b → Type 0
  Owes due s = Ledger due s.effects s.tasks

  -- A reply or a signal.
  pub neutral-Owes :
      (due : Option ℕ) (e : Effect b) (s : Fwbank b)
      → ((r : ℕ) → opened r (e ∷ []) ≡ 0)
      → ((r : ℕ) → closed r (e ∷ []) ≡ 0)
      → Owes due s
      → Owes due (send b e s)
  neutral-Owes due e s o c v = record {
    balanced = λ r. omega (
      arith,
      opened-append r s.effects (e ∷ []),
      closed-append r s.effects (e ∷ []),
      o r,
      c r,
      v.balanced r,
    );
    all_filled = v.all_filled;
  }

  pub reply-Owes :
      (due req : Option ℕ) (o : Option (List b.Attr)) (s : Fwbank b)
      → Owes due s
      → Owes due (send b (send_reply req o) s)
  reply-Owes due req o s v = neutral-Owes due _ s (λ r. refl) (λ r. refl) v

  pub opened-defer :
      (r : ℕ) (ctx req : Option ℕ)
      → opened r (defer_effect b ctx req) ≡ one_if r (deferred_request ctx req)
  opened-defer r (some c) (some q) = omega arith
  opened-defer r (some c) none = refl
  opened-defer r none req = refl

  pub closed-defer : (r : ℕ) (ctx req : Option ℕ) → closed r (defer_effect b ctx req) ≡ 0
  closed-defer r (some c) (some q) = refl
  closed-defer r (some c) none = refl
  closed-defer r none req = refl

  pub fork-Owes :
      (due : Option ℕ) (fork : Fork) (f : Option Finish) (command : Text) (timeout : ℕ)
      (req : Option ℕ) (bank_id : ℕ) (s : Fwbank b)
      → Owes due s
      → Owes due (sysmngr_task_fork b fork f command timeout req bank_id s).1
  unfolding sysmngr_task_fork
  fork-Owes due (child pid) f command timeout req bank_id s v =
      let t = started_task f command timeout s.ctx req bank_id pid in
      record {
        balanced = λ r. omega (
          arith,
          opened-append r s.effects (defer_effect b s.ctx req),
          closed-append r s.effects (defer_effect b s.ctx req),
          opened-defer r s.ctx req,
          closed-defer r s.ctx req,
          pending-append r s.tasks (t ∷ []),
          v.balanced r,
        );
        all_filled = AllFilled-append s.tasks t v.all_filled refl;
      }
  fork-Owes due no_memory f command timeout req bank_id s v = v
  fork-Owes due no_pipe f command timeout req bank_id s v = v
  fork-Owes due no_child f command timeout req bank_id s v = v

  -- A task that is completed is owed no more.
  pub complete-Owes :
      (ctx req new_req : Option ℕ) (s : Fwbank b)
      → new_req ≡ deferred_request ctx req
      → Owes new_req s
      → Owes none (complete_if b ctx req new_req s)
  complete-Owes (some c) (some q) new_req s e v = record {
    balanced = λ r. omega (
      arith,
      opened-append r s.effects (complete_deferred new_req ∷ []),
      closed-append r s.effects (complete_deferred new_req ∷ []),
      v.balanced r,
    );
    all_filled = v.all_filled;
  }
  complete-Owes (some c) none new_req s e v = subst (λ d. Owes d s) e v
  complete-Owes none req new_req s e v = subst (λ d. Owes d s) e v
