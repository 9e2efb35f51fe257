-- ===== src/Processes/Observer.antt =====
-- An observer of the bus who follows the events on the number of processes.
use sysmngr.Prelude.{
  ℕ, zero, suc, ◌+◌, ◌-◌, ◌≡◌, ◌≢◌, refl, sym, ap, ◌∙◌, true, false, Bool-cases, Option, none, some,
  ◌>>=◌, List, [], ◌∷◌, ◌++◌, if◌then◌else◌, ◌==◌, ltb, codes, text_eq, text_eq_refl, arith, Text,
  inl, inr,
}
use mathlib.Core.List.{append-nil}
use sysmngr.Processes.{
  Event, ProcessCtx, obj_path, added_paths, deleted_paths, broadcast_add_del_event, announce,
}

-- The instances that an observer knows, the newest first. An event that deletes an instance that is not
-- the newest is not understood.
abbrev pub push_all : List Text → List Text → List Text
push_all [] known = known
push_all (path ∷ paths) known = push_all paths (path ∷ known)

abbrev pub pop : Text → List Text → Option (List Text)
pop path [] = none
pop path (newest ∷ known) = if text_eq path newest then some known else none

abbrev pub pop_all : List Text → List Text → Option (List Text)
pop_all [] known = some known
pop_all (path ∷ paths) known = pop path known >>= λ rest. pop_all paths rest

abbrev pub observe : List Event → List Text → Option (List Text)
observe [] known = some known
observe (e ∷ events) known =
    if text_eq e.method (codes "bbfdm.AddObj")
    then observe events (push_all e.instances known)
    else (pop_all e.instances known >>= λ rest. observe events rest)

-- Instances 1 to n, the newest first.
abbrev pub instances : ℕ → List Text
instances zero = []
instances (suc n) = obj_path (suc n) ∷ instances n

at_suc : (i m : ℕ) → m ≡ suc i → instances m ≡ obj_path m ∷ instances i
at_suc i m h = rw h refl

instances-next : (i : ℕ) → instances (i + 1) ≡ obj_path (i + 1) ∷ instances i
instances-next i = at_suc i (i + 1) (omega arith)

push-added : (n i k : ℕ) → k ≡ n + i → push_all (added_paths n (i + 1)) (instances i) ≡ instances k
push-added zero i k h = ap instances (omega arith)
push-added (suc n) i k h =
    ap (push_all (added_paths n (i + 1 + 1))) (sym (instances-next i))
    ∙ push-added n (i + 1) k (omega arith)

pop_own : (path : Text) (known : List Text) → pop path (path ∷ known) ≡ some known
pop_own path known = rw (text_eq_refl path) refl

suc_pred : (i : ℕ) → suc i - 1 ≡ i
suc_pred i = omega arith

pop-deleted :
    (n i k : ℕ) → i ≡ n + k → pop_all (deleted_paths n i) (instances i) ≡ some (instances k)
pop-deleted zero i k h = ap (λ m. some (instances m)) (omega arith)
pop-deleted (suc n) zero k h = absurd (omega arith)
pop-deleted (suc n) (suc i) k h =
    ap
      (λ m. pop (obj_path (suc i)) (instances (suc i)) >>= λ rest. pop_all (deleted_paths n m) rest)
      (suc_pred i)
    ∙ ap (λ o. o >>= λ rest. pop_all (deleted_paths n i) rest)
        (pop_own (obj_path (suc i)) (instances i))
    ∙ pop-deleted n i k (omega arith)

pub eq_of_== : (a b : ℕ) → (a == b) ≡ true → a ≡ b
eq_of_== a b h = ground arith

-- The events that a change of the number adds.
abbrev pub Tells : ℕ → ℕ → List Event → Type 0
Tells old new events = observe events (instances old) ≡ some (instances new)

pub announce-Tells :
    (current : ℕ) (s : ProcessCtx)
    → s.process_num ≢ 0
    → (news : List Event) × ((announce current s).events ≡ s.events ++ news)
      × Tells s.process_num current news
unfolding broadcast_add_del_event
announce-Tells current s some_before = elim (Bool-cases (current == s.process_num)) [
  | inl e ↦ rw e (
    [],
    sym (append-nil s.events),
    ap (λ n. some (instances n)) (sym (eq_of_== current s.process_num e)),
  )
  | inr e ↦ elim (Bool-cases (s.process_num == 0)) [
    | inl z ↦ absurd (some_before (eq_of_== s.process_num 0 z))
    | inr z ↦ elim (Bool-cases (ltb s.process_num current)) [
      | inl l ↦ rw (e, z, l) (_ ∷ [], refl, added l)
      | inr l ↦ rw (e, z, l) (_ ∷ [], refl, deleted l)
    ]
  ]
]
  where
    added :
        ltb s.process_num current ≡ true
        → some (
            push_all
              (added_paths (current - s.process_num) (s.process_num + 1))
              (instances s.process_num))
          ≡ some (instances current)
    added l = ap some (push-added (current - s.process_num) s.process_num current (ground arith))

    deleted :
        ltb s.process_num current ≡ false
        → (pop_all (deleted_paths (s.process_num - current) s.process_num) (instances s.process_num)
            >>= λ rest. some rest)
          ≡ some (instances current)
    deleted l =
        ap (λ o. o >>= λ rest. some rest)
          (pop-deleted (s.process_num - current) s.process_num current (ground arith))
