-- ===== src/Fwbank/Sysupgrade.antt =====
-- src/fwbank.c: what the order of the attributes of a sysupgrade event means for its handler.
use sysmngr.Prelude.{
  ◌≡◌, refl, sym, ap, ◌∙◌, subst, false, Bool-cases, inl, inr, none, some, List, [], ◌∷◌, ◌++◌,
  codes, text_eq, snprintf_s, not, ◌&&◌,
}
use sysmngr.Prelude.Strings.{Text}
use sysmngr.Libc.{decimal}
use sysmngr.Fwbank.{
  Blob, Fork, child, Finish, Task, Fwbank, sysmngr_task_fork, dump_cmd, init_global_fwbank_dump,
}
use sysmngr.Fwbank.Ubus.{Scan, scan_event, after_scan, stop_listening, fwbank_receive_sysupgrade}

module _ (b : Blob) where
  -- No status stands among the attributes.
  pub data NoStatus : List b.Attr → Type 0 where
    no_attr : NoStatus []
    other :
        {a : b.Attr} {msg : List b.Attr}
        → text_eq (b.name a) (codes "status") ≡ false
        → NoStatus msg
        → NoStatus (a ∷ msg)

  -- Nor is one of them the id of another bank.
  pub data AllPassed (id : Text) : List b.Attr → Type 0 where
    none_left : AllPassed id []
    passed :
        {a : b.Attr} {msg : List b.Attr}
        → text_eq (b.name a) (codes "status") ≡ false
        → (text_eq (b.name a) (codes "bank_id") && not (text_eq (b.get_string a) id)) ≡ false
        → AllPassed id msg
        → AllPassed id (a ∷ msg)

  scan-foreign :
      (id : Text) {pre : List b.Attr} (a : b.Attr) (post : List b.Attr)
      → NoStatus pre
      → b.name a ≡ codes "bank_id"
      → text_eq (b.get_string a) id ≡ false
      → scan_event b id (pre ++ (a ∷ post)) ≡ Scan.returned
  unfolding scan_event
  scan-foreign id a post no_attr n e = rw (n, e)
  scan-foreign id {pre = c ∷ pre} a post (other s rest) n e =
      elim (Bool-cases
        (text_eq (b.name c) (codes "bank_id") && not (text_eq (b.get_string c) id))) [
          | inl m ↦ rw m
          | inr m ↦ rw (m, s) (scan-foreign id a post rest n e)
        ]

  scan-available :
      (id : Text) {pre : List b.Attr} (a : b.Attr) (post : List b.Attr)
      → AllPassed id pre
      → b.name a ≡ codes "status"
      → b.get_string a ≡ codes "Available"
      → scan_event b id (pre ++ (a ∷ post)) ≡ Scan.refresh
  unfolding scan_event
  scan-available id a post none_left n e = rw (n, e)
  scan-available id a post (passed s m rest) n e = rw (m, s) (scan-available id a post rest n e)

  -- An event whose bank_id is not the one waited for changes nothing, if no status stands before it.
  pub receive_sysupgrade-foreign :
      (fork : Fork) (s : Fwbank b) {pre : List b.Attr} (a : b.Attr) (post : List b.Attr)
      → NoStatus pre
      → b.name a ≡ codes "bank_id"
      → text_eq (b.get_string a) (snprintf_s 16 (decimal s.event.band_id)) ≡ false
      → fwbank_receive_sysupgrade b fork (some (pre ++ (a ∷ post))) s ≡ s
  unfolding fwbank_receive_sysupgrade
  receive_sysupgrade-foreign fork s a post quiet n e =
      ap (λ scan. after_scan b fork scan s) (scan-foreign _ a post quiet n e)

  -- A task that runs the command of the dump is added if there is a child for it; else the tasks stay.
  abbrev pub DumpForked : Fork → Fwbank b → Fwbank b → Type 0
  DumpForked (child pid) s after =
      (t : Task) × (after.tasks ≡ s.tasks ++ (t ∷ []))
      × (t.finishcb ≡ some Finish.dump)
      × (t.command ≡ dump_cmd)
      × (t.pid ≡ pid)
  DumpForked _ s after = after.tasks ≡ s.tasks

  forked : (fork : Fork) (s : Fwbank b) → DumpForked fork s (init_global_fwbank_dump b fork s).1
  unfolding sysmngr_task_fork
  forked (child pid) s = (_, refl, refl, refl, refl)
  forked Fork.no_memory s = refl
  forked Fork.no_pipe s = refl
  forked Fork.no_child s = refl

  output-forked :
      (fork : Fork) (s : Fwbank b) → (init_global_fwbank_dump b fork s).1.output ≡ s.output
  unfolding sysmngr_task_fork
  output-forked (child pid) s = refl
  output-forked Fork.no_memory s = refl
  output-forked Fork.no_pipe s = refl
  output-forked Fork.no_child s = refl

  stopped-forked :
      (fork : Fork) (s after : Fwbank b)
      → DumpForked fork s after
      → DumpForked fork s (stop_listening b after)
  stopped-forked (child pid) s after h = h
  stopped-forked Fork.no_memory s after h = h
  stopped-forked Fork.no_pipe s after h = h
  stopped-forked Fork.no_child s after h = h

  -- Behind a status Available nothing is looked at, a bank_id neither: whatever follows, if what stands before it is
  -- neither a status nor the id of another bank, the timer of the wait is off and its handler is not registered,
  -- the cached dump is kept, and a task for a new dump runs, unless no child could be forked for it.
  pub receive_sysupgrade-available :
      (fork : Fork) (s : Fwbank b) {pre : List b.Attr} (a : b.Attr) (post : List b.Attr)
      → AllPassed (snprintf_s 16 (decimal s.event.band_id)) pre
      → b.name a ≡ codes "status"
      → b.get_string a ≡ codes "Available"
      → let after = fwbank_receive_sysupgrade b fork (some (pre ++ (a ∷ post))) s in
        (after.event.tm ≡ none)
        × (after.event.registered ≡ false)
        × (after.output ≡ s.output)
        × DumpForked fork s after
  unfolding fwbank_receive_sysupgrade
  receive_sysupgrade-available fork s a post fine n e =
      let same : after_scan b fork (scan_event b (snprintf_s 16 (decimal s.event.band_id)) _) s
          ≡ stop_listening b (init_global_fwbank_dump b fork s).1 =
        ap (λ scan. after_scan b fork scan s) (scan-available _ a post fine n e) in
      (
        ap (λ (t : Fwbank b). t.event.tm) same,
        ap (λ (t : Fwbank b). t.event.registered) same,
        ap (λ (t : Fwbank b). t.output) same ∙ output-forked fork s,
        subst (DumpForked fork s) (sym same) (stopped-forked fork s _ (forked fork s)),
      )
