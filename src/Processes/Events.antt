-- ===== src/Processes/Events.antt =====
-- src/processes.c: the events on the number of processes, as an observer of the bus follows them.
use sysmngr.Prelude.{
  ℕ, suc, ◌+◌, ◌≤◌, ◌≡◌, ◌≢◌, refl, sym, ap, ◌∙◌, true, Bool-cases, Option, none, some, ◌>>=◌, List,
  [], ◌∷◌, ◌++◌, subst, ◌==◌, ltb, codes, text_eq, length, arith, Text, inl, inr,
}
use mathlib.Core.List.{append-nil, append_assoc}
use sysmngr.Prelude.Int.{pos, ltb_ℤ}
use sysmngr.Procps.{ProcLib, ProcessEntry, read_entry}
use sysmngr.Processes.{
  Event, ProcessCtx, Proc, broadcast_add_del_event, announce, add_tail, with_entry, read_entries,
  read_dir, init_process_list, free_process_list, schedule, run_refresh_process_list,
}
use sysmngr.Processes.Observer.{
  push_all, pop_all, observe, instances, eq_of_==, Tells, announce-Tells,
}

-- The processes of a directory, in its order.
abbrev pub cons_some : Option ProcessEntry → List ProcessEntry → List ProcessEntry
cons_some none entries = entries
cons_some (some entry) entries = entry ∷ entries

abbrev pub processes_of : ProcLib → List Text → List ProcessEntry
processes_of lib [] = []
processes_of lib (name ∷ names) = cons_some (read_entry lib name) (processes_of lib names)

with_entry-all :
    (o : Option ProcessEntry) (rest : ℕ → ProcessCtx → ProcessCtx) (current : ℕ) (s : ProcessCtx)
    (es : List ProcessEntry)
    → ((n : ℕ) (t : ProcessCtx)
        → rest n t ≡ announce (n + length es) (record t { list = t.list ++ es }))
    → with_entry true o rest current s
      ≡ announce (current + length (cons_some o es)) (record s { list = s.list ++ cons_some o es })
with_entry-all none rest current s es h = h current s
with_entry-all (some entry) rest current s es h =
    h (current + 1) (add_tail entry s)
    ∙ ap (λ n. announce n (record s { list = (s.list ++ (entry ∷ [])) ++ es })) (omega arith)
    ∙ ap (λ l. announce (current + suc (length es)) (record s { list = l }))
        (append_assoc s.list (entry ∷ []) es)

read_entries-all :
    (p : Proc) (names : List Text) (current : ℕ) (s : ProcessCtx)
    → ((n : ℕ) → p.allocated n ≡ true)
    → let es = processes_of p.lib names in
      read_entries p names current s
      ≡ announce (current + length es) (record s { list = s.list ++ es })
unfolding read_entries
read_entries-all p [] current s h =
    ap (λ n. announce n s) (omega arith)
    ∙ ap (λ l. announce (current + 0) (record s { list = l })) (sym (append-nil s.list))
read_entries-all p (name ∷ names) current s h =
    ap (λ a. with_entry a (read_entry p.lib name) (λ n t. read_entries p names n t) current s)
      (h current)
    ∙ with_entry-all (read_entry p.lib name) _ current s (processes_of p.lib names)
        (λ n t. read_entries-all p names n t h)

announce-num : (current : ℕ) (s : ProcessCtx) → (announce current s).process_num ≡ current
unfolding broadcast_add_del_event
announce-num current s = elim (Bool-cases (current == s.process_num)) [
  | inl e ↦ rw e (sym (eq_of_== current s.process_num e))
  | inr e ↦ rw e refl
]

announce-list : (current : ℕ) (s : ProcessCtx) → (announce current s).list ≡ s.list
unfolding broadcast_add_del_event
announce-list current s = elim (Bool-cases (current == s.process_num)) [
  | inl e ↦ rw e refl
  | inr e ↦ elim (Bool-cases (s.process_num == 0)) [
    | inl z ↦ rw (e, z) refl
    | inr z ↦ elim (Bool-cases (ltb s.process_num current)) [
      | inl l ↦ rw (e, z, l) refl
      | inr l ↦ rw (e, z, l) refl
    ]
  ]
]

schedule-keeps :
    (s : ProcessCtx)
    → ((schedule s).list ≡ s.list)
      × ((schedule s).process_num ≡ s.process_num)
      × ((schedule s).events ≡ s.events)
schedule-keeps s = elim (Bool-cases (ltb_ℤ (pos 0) s.refresh_interval)) [
  | inl e ↦ rw e (refl, refl, refl)
  | inr e ↦ rw e (refl, refl, refl)
]

-- /proc is opened and has a process, and no calloc fails.
pub record IsReadable (p : Proc) : Type 0 where
  pub names : List Text
  pub opened : p.dir ≡ some names
  pub enough : (n : ℕ) → p.allocated n ≡ true
  pub inhabited : 1 ≤ length (processes_of p.lib names)

refresh-announces :
    (p : Proc) (s : ProcessCtx) (k : IsReadable p)
    → let es = processes_of p.lib k.names in
      run_refresh_process_list p s ≡ schedule (announce (length es) (record s { list = es }))
unfolding run_refresh_process_list init_process_list free_process_list
refresh-announces p s k =
    ap (λ d. schedule (read_dir p d (record s { list = [] }))) k.opened
    ∙ ap schedule (
        read_entries-all p k.names 0 (record s { list = [] }) k.enough
        ∙ ap (λ n. announce n (record s { list = processes_of p.lib k.names })) (omega arith))

-- One refresh.
refresh-observed :
    (p : Proc) (s : ProcessCtx) (k : IsReadable p)
    → s.process_num ≢ 0
    → let after = run_refresh_process_list p s in
      (after.list ≡ processes_of p.lib k.names)
      × (after.process_num ≡ length (processes_of p.lib k.names))
      × ((news : List Event) × (after.events ≡ s.events ++ news)
          × Tells s.process_num (length (processes_of p.lib k.names)) news)
refresh-observed p s k ne =
    let es = processes_of p.lib k.names in
    let a = announce (length es) (record s { list = es }) in
    let e = refresh-announces p s k in
    let (list, num, events) = schedule-keeps a in
    let (news, told, tells) = announce-Tells (length es) (record s { list = es }) ne in
    (
      ap (λ x. x.list) e ∙ list ∙ announce-list (length es) (record s { list = es }),
      ap (λ x. x.process_num) e ∙ num ∙ announce-num (length es) (record s { list = es }),
      (news, ap (λ x. x.events) e ∙ events ∙ told, tells),
    )

abbrev pub refreshes : List Proc → ProcessCtx → ProcessCtx
refreshes [] s = s
refreshes (p ∷ ps) s = refreshes ps (run_refresh_process_list p s)

pub data AllReadable : List Proc → Type 0 where
  none_left : AllReadable []
  one_readable : {p : Proc} {ps : List Proc} → IsReadable p → AllReadable ps → AllReadable (p ∷ ps)

observe-append :
    (xs ys : List Event) (known : List Text)
    → observe (xs ++ ys) known ≡ (observe xs known >>= λ later. observe ys later)
observe-append [] ys known = refl
observe-append (e ∷ xs) ys known = elim (Bool-cases (text_eq e.method (codes "bbfdm.AddObj"))) [
  | inl a ↦ rw a (observe-append xs ys (push_all e.instances known))
  | inr a ↦ rw a (then_pop (pop_all e.instances known) (λ rest. observe-append xs ys rest))
]
  where
    then_pop :
        (o : Option (List Text))
        → ((rest : List Text)
            → observe (xs ++ ys) rest ≡ (observe xs rest >>= λ later. observe ys later))
        → (o >>= λ rest. observe (xs ++ ys) rest)
          ≡ (o >>= (λ rest. observe xs rest) >>= λ later. observe ys later)
    then_pop none h = refl
    then_pop (some rest) h = h rest

Tells-append :
    (old middle new : ℕ) (xs ys : List Event)
    → Tells old middle xs
    → Tells middle new ys
    → Tells old new (xs ++ ys)
Tells-append old middle new xs ys h k =
    observe-append xs ys (instances old) ∙ ap (λ o. o >>= λ later. observe ys later) h ∙ k

-- If /proc can be read with a process in it at every refresh, no allocation fails, and the number of processes
-- is that of the list and not 0, then after any number of refreshes it is still that of the list, and an
-- observer that knew the instances and follows the events knows exactly the instances 1 to that number.
pub refreshes-observed :
    (ps : List Proc) (s : ProcessCtx)
    → s.process_num ≢ 0
    → s.process_num ≡ length s.list
    → AllReadable ps
    → let after = refreshes ps s in
      (after.process_num ≡ length after.list)
      × ((news : List Event) × (after.events ≡ s.events ++ news)
          × (observe news (instances s.process_num) ≡ some (instances after.process_num)))
refreshes-observed [] s ne counted none_left = (counted, ([], sym (append-nil s.events), refl))
refreshes-observed (p ∷ ps) s ne counted (one_readable k ks) =
    let t = run_refresh_process_list p s in
    let (list, num, (news, told, tells)) = refresh-observed p s k ne in
    let (counted', (later, told', tells')) =
      refreshes-observed ps t (positive num k.inhabited) (num ∙ ap length (sym list)) ks in
    (
      counted',
      (
        news ++ later,
        told' ∙ ap (λ es. es ++ later) told ∙ append_assoc s.events news later,
        Tells-append s.process_num t.process_num _ news later
            (subst (λ n. Tells s.process_num n news) (sym num) tells) tells',
      ),
    )
  where
    positive : {m n : ℕ} → m ≡ n → 1 ≤ n → m ≢ 0
    positive e h z = absurd (omega arith)
