-- ===== src/Processes/Alive.antt =====
-- src/processes.c: the refresh of the process list keeps coming back.
use sysmngr.Prelude.{
  ℕ, suc, ◌+◌, ◌-◌, ◌*◌, ◌≤◌, ◌≡◌, refl, sym, ap, ◌∙◌, Bool, true, false, Bool-cases, inl, inr, ◌⊎◌,
  Option, none, some, List, [], ◌∷◌, ◌==◌, ltb, Text, arith, none-some, subst,
}
use sysmngr.Prelude.Int.{ℤ, pos, pos_part, ltb_ℤ, leb_ℤ}
use sysmngr.Libc.{to_int}
use sysmngr.Uci.{Uci}
use sysmngr.Procps.{ProcessEntry, read_entry}
use sysmngr.Processes.{
  ProcessCtx, Proc, broadcast_add_del_event, announce, with_entry, add_tail, read_entries, read_dir,
  init_process_list, free_process_list, schedule, run_refresh_process_list, ubus_call_complete_cb,
  process_refresh_instance_timer, browse_process_entries_inst, sysmngr_process_init,
  get_instance_refresh_interval,
}

-- The states that follow `start`, with the number of times that the daemon woke up for the list and the
-- number of refreshes. A wake-up is the expired timer or a completed call of tr069.
pub data Run (start : ProcessCtx) : ℕ → ℕ → ProcessCtx → Type 0 where
  started : Run start 0 0 start
  found_tr069 :
      {w r : ℕ} {s : ProcessCtx} {t : ℤ} (p : Proc)
      → Run start w r s
      → s.instance_timer ≡ some t
      → Run start (w + 1) r (process_refresh_instance_timer true p s)
  no_tr069 :
      {w r : ℕ} {s : ProcessCtx} {t : ℤ} (p : Proc)
      → Run start w r s
      → s.instance_timer ≡ some t
      → Run start (w + 1) (r + 1) (process_refresh_instance_timer false p s)
  completed :
      {w r n : ℕ} {s : ProcessCtx} (p : Proc)
      → Run start w r s
      → s.pending ≡ suc n
      → Run start (w + 1) (r + 1) (ubus_call_complete_cb p s)
  browsed :
      {w r : ℕ} {s : ProcessCtx} (stops : ℕ → Bool)
      → Run start w r s
      → Run start w r (browse_process_entries_inst stops s).1

-- What the reading of /proc leaves alone.
record Same (s t : ProcessCtx) : Type 0 where
  interval : t.refresh_interval ≡ s.refresh_interval
  timer : t.instance_timer ≡ s.instance_timer
  calls : t.pending ≡ s.pending

announce-Same : (current : ℕ) (s : ProcessCtx) → Same s (announce current s)
unfolding broadcast_add_del_event
announce-Same current s = elim (Bool-cases (current == s.process_num)) [
  | inl e ↦ rw e (record { interval = refl; timer = refl; calls = refl })
  | inr e ↦ elim (Bool-cases (s.process_num == 0)) [
    | inl z ↦ rw (e, z) (record { interval = refl; timer = refl; calls = refl })
    | inr z ↦ elim (Bool-cases (ltb s.process_num current)) [
      | inl l ↦ rw (e, z, l) (record { interval = refl; timer = refl; calls = refl })
      | inr l ↦ rw (e, z, l) (record { interval = refl; timer = refl; calls = refl })
    ]
  ]
]

then_entry : {s t : ProcessCtx} (entry : ProcessEntry) → Same (add_tail entry s) t → Same s t
then_entry entry k = record { interval = k.interval; timer = k.timer; calls = k.calls }

with_entry-Same :
    (allocated : Bool) (o : Option ProcessEntry) (rest : ℕ → ProcessCtx → ProcessCtx) (current : ℕ)
    (s : ProcessCtx)
    → ((n : ℕ) (t : ProcessCtx) → Same t (rest n t))
    → Same s (with_entry allocated o rest current s)
with_entry-Same allocated none rest current s h = h current s
with_entry-Same true (some entry) rest current s h =
    then_entry entry (h (current + 1) (add_tail entry s))
with_entry-Same false (some entry) rest current s h = record {
  interval = refl;
  timer = refl;
  calls = refl;
}

entries-Same :
    (p : Proc) (names : List Text) (current : ℕ) (s : ProcessCtx)
    → Same s (read_entries p names current s)
unfolding read_entries
entries-Same p [] current s = announce-Same current s
entries-Same p (name ∷ names) current s =
    with_entry-Same (p.allocated current) (read_entry p.lib name) _ current s
      (λ n t. entries-Same p names n t)

dir-Same : (p : Proc) (dir : Option (List Text)) (s : ProcessCtx) → Same s (read_dir p dir s)
dir-Same p none s = record { interval = refl; timer = refl; calls = refl }
dir-Same p (some names) s = entries-Same p names 0 s

-- Exactly one thing will bring the next refresh: the timer, or the call that is not complete.
abbrev pub Waits : ProcessCtx → Type 0
Waits s =
    ((t : ℤ) × (s.instance_timer ≡ some t) × (s.pending ≡ 0))
    ⊎ ((s.instance_timer ≡ none) × (s.pending ≡ 1))

abbrev IsPositive : ProcessCtx → Type 0
IsPositive s = ltb_ℤ (pos 0) s.refresh_interval ≡ true

schedule-sets :
    (s : ProcessCtx)
    → ltb_ℤ (pos 0) s.refresh_interval ≡ true
    → schedule s
      ≡ record s { instance_timer = some (to_int (pos (pos_part s.refresh_interval * 1000))) }
schedule-sets s h = rw h refl

-- A refresh sets the timer if the interval is positive, and makes no call.
refresh-due :
    (p : Proc) (s : ProcessCtx)
    → ltb_ℤ (pos 0) s.refresh_interval ≡ true
    → let after = run_refresh_process_list p s in
      ((t : ℤ) × (after.instance_timer ≡ some t))
      × (after.refresh_interval ≡ s.refresh_interval)
      × (after.pending ≡ s.pending)
unfolding run_refresh_process_list init_process_list free_process_list
refresh-due p s h =
    let k = dir-Same p p.dir (record s { list = [] }) in
    let e = schedule-sets _ (rw k.interval h) in
    (
      (_, ap (λ x. x.instance_timer) e),
      ap (λ x. x.refresh_interval) e ∙ k.interval,
      ap (λ x. x.pending) e ∙ k.calls,
    )

not_small : (z : ℤ) → ltb_ℤ (pos 0) z ≡ true → leb_ℤ z (pos 0) ≡ false
not_small z h = ground arith

-- What holds after `w` wake-ups and `r` refreshes.
abbrev Keeps : ℕ → ℕ → ProcessCtx → Type 0
Keeps w r s = IsPositive s × Waits s × (w ≤ 2 * r + s.pending)

refreshed :
    (p : Proc) (w r : ℕ) (s : ProcessCtx)
    → IsPositive s
    → s.pending ≡ 0
    → w ≤ 2 * r
    → Keeps w r (run_refresh_process_list p s)
refreshed p w r s pos_s calls h =
    let ((t, timer), interval, pending) = refresh-due p s pos_s in
    (rw interval pos_s, inl (t, timer, pending ∙ calls), omega (arith, h))

woken :
    (p : Proc) (w r : ℕ) (s : ProcessCtx) (t : ℤ)
    → Keeps w r s
    → s.instance_timer ≡ some t
    → Keeps (w + 1) r (process_refresh_instance_timer true p s)
      × Keeps (w + 1) (r + 1) (process_refresh_instance_timer false p s)
unfolding process_refresh_instance_timer
woken p w r s t (positive, inl (t', timer, none_open), few) e = (
  (positive, inr (refl, omega arith), omega arith),
  refreshed p (w + 1) (r + 1) (record s { instance_timer = none }) positive none_open (omega arith),
)
woken p w r s t (positive, inr (timer, one_open), few) e = absurd (none-some t (sym timer ∙ e))

answered :
    (p : Proc) (w r n : ℕ) (s : ProcessCtx)
    → Keeps w r s
    → s.pending ≡ suc n
    → Keeps (w + 1) (r + 1) (ubus_call_complete_cb p s)
unfolding ubus_call_complete_cb
answered p w r n s (positive, inl (t', timer, none_open), few) e = absurd (omega arith)
answered p w r n s (positive, inr (timer, one_open), few) e =
    refreshed p (w + 1) (r + 1) (record s { pending = s.pending - 1 }) positive (omega arith)
      (omega arith)

looked_at :
    (s : ProcessCtx) (stops : ℕ → Bool) → IsPositive s → (browse_process_entries_inst stops s).1 ≡ s
unfolding browse_process_entries_inst
looked_at s stops h = rw (not_small s.refresh_interval h) refl

keeps : {start s : ProcessCtx} {w r : ℕ} → Keeps 0 0 start → Run start w r s → Keeps w r s
keeps k started = k
keeps k (found_tr069 p run e) = (woken p _ _ _ _ (keeps k run) e).0
keeps k (no_tr069 p run e) = (woken p _ _ _ _ (keeps k run) e).1
keeps k (completed p run e) = answered p _ _ _ _ (keeps k run) e
keeps k (browsed stops run) =
    subst (Keeps _ _) (sym (looked_at _ stops (keeps k run).0)) (keeps k run)

-- If the refresh interval is positive and no call was open at the start, then after any run the next refresh
-- is due in exactly one way, by the timer or by the one open call, and at least every second wake-up has
-- refreshed the list.
pub refresh_comes_back :
    (u : Uci) (config : u.Config) (p : Proc) (s t : ProcessCtx) (w r : ℕ)
    → ltb_ℤ (pos 0) (get_instance_refresh_interval u config) ≡ true
    → s.pending ≡ 0
    → Run (sysmngr_process_init u config p s) w r t
    → Waits t × (w ≤ 2 * r + 1)
unfolding sysmngr_process_init
refresh_comes_back u config p s t w r positive calls run =
    let first =
      refreshed p 0 0
        (record s {
          refresh_interval = get_instance_refresh_interval u config;
          list = [];
          process_num = 0;
        })
        positive calls (omega arith) in
    let (p', waits, few) = keeps first run in (waits, at_most waits few)
  where
    at_most : Waits t → w ≤ 2 * r + t.pending → w ≤ 2 * r + 1
    at_most (inl (x, timer, none_open)) few = omega arith
    at_most (inr (timer, one_open)) few = omega arith
