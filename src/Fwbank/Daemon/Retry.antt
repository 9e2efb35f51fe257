-- ===== src/Fwbank/Daemon/Retry.antt =====
-- src/fwbank.c: a series of dumps that fail, each taken up again by the timer.
use sysmngr.Prelude.{
  ℕ, ◌+◌, ◌≤◌, ◌<◌, ◌≡◌, refl, ◌∙◌, ap, true, none, some, List, [], ◌∷◌, arith, lt→ltb,
  le→ltb_false, length,
}
use sysmngr.Fwbank.{
  Blob, child, Fwbank, fwbank_dump_timer, sysmngr_task_fork, sysmngr_init_fwbank_dump,
}
use sysmngr.Fwbank.Tasks.{Pipe, read_pipe, parsed_dump, store_or_retry, fwbank_dump_finish_callback}

module _ (b : Blob) where
  -- The script gives no valid dump.
  abbrev pub Fails : Pipe → Type 0
  Fails p = parsed_dump b (read_pipe p) ≡ none

  -- A dump that fails is taken up again by the timer, with a child of its own.
  pub data AllFail : List (Pipe × ℕ) → Type 0 where
    no_more : AllFail []
    one_fails :
        {p : Pipe} {pid : ℕ} {ps : List (Pipe × ℕ)} → Fails p → AllFail ps → AllFail ((p, pid) ∷ ps)

  abbrev pub attempts : List (Pipe × ℕ) → Fwbank b → Fwbank b
  attempts [] s = s
  attempts ((p, pid) ∷ ps) s =
      attempts ps (fwbank_dump_timer b true (child pid) (fwbank_dump_finish_callback b p s))

  -- One more retry is counted, and its timer is set, as long as there were fewer than ten.
  store_or_retry-counts :
      (p : Pipe) (s : Fwbank b)
      → Fails p
      → s.retry_count < 10
      → fwbank_dump_finish_callback b p s
        ≡ record s { retry_count = s.retry_count + 1; tm = some 3000 }
  unfolding fwbank_dump_finish_callback store_or_retry
  store_or_retry-counts p s f h = ap (λ o. store_or_retry b o s) f ∙ rw (lt→ltb s.retry_count 10 h)

  store_or_retry-ends :
      (p : Pipe) (s : Fwbank b)
      → Fails p
      → 10 ≤ s.retry_count
      → fwbank_dump_finish_callback b p s ≡ s
  unfolding fwbank_dump_finish_callback store_or_retry
  store_or_retry-ends p s f h =
      ap (λ o. store_or_retry b o s) f ∙ rw (le→ltb_false s.retry_count 10 h)

  attempts-count :
      (ps : List (Pipe × ℕ)) (s : Fwbank b)
      → AllFail ps
      → s.retry_count + length ps ≤ 10
      → s.tm ≡ none
      → ((attempts ps s).retry_count ≡ s.retry_count + length ps)
        × ((attempts ps s).tm ≡ none)
        × ((attempts ps s).output ≡ s.output)
  unfolding fwbank_dump_timer sysmngr_init_fwbank_dump sysmngr_task_fork
  attempts-count [] s no_more h t = (omega arith, t, refl)
  attempts-count ((p, pid) ∷ ps) s (one_fails f fs) h t =
      let next = record s { retry_count = s.retry_count + 1; tm = some 3000 } in
      let again = fwbank_dump_timer b true (child pid) next in
      let same : fwbank_dump_timer b true (child pid) (fwbank_dump_finish_callback b p s) ≡ again =
        ap (fwbank_dump_timer b true (child pid)) (store_or_retry-counts p s f (omega arith)) in
      let (count, off, out) = attempts-count ps again fs (omega arith) refl in
      (
        ap (λ u. (attempts ps u).retry_count) same ∙ omega (arith, count),
        ap (λ u. (attempts ps u).tm) same ∙ off,
        ap (λ u. (attempts ps u).output) same ∙ out,
      )

  -- If the dump fails at every attempt until ten retries are counted, and at the last one too, then no
  -- timer is left, so that no further attempt is made, and the cached dump is the one from before.
  pub gives_up :
      (ps : List (Pipe × ℕ)) (p : Pipe) (s : Fwbank b)
      → AllFail ps
      → Fails p
      → s.retry_count + length ps ≡ 10
      → s.tm ≡ none
      → let t = fwbank_dump_finish_callback b p (attempts ps s) in
        (t.retry_count ≡ 10) × (t.tm ≡ none) × (t.output ≡ s.output)
  gives_up ps p s fs f h off =
      let (count, off', out) = attempts-count ps s fs (omega arith) off in
      let last = store_or_retry-ends p (attempts ps s) f (omega (arith, count)) in
      (
        ap (λ u. u.retry_count) last ∙ omega (arith, count),
        ap (λ u. u.tm) last ∙ off',
        ap (λ u. u.output) last ∙ out,
      )
