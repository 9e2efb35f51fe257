-- ===== src/FwImages/Banks.antt =====
-- src/fw_images.c: what the availability of a bank is after it is set, and what guards the choice of the boot
-- bank.
use sysmngr.Prelude.{
  ℕ, zero, suc, ◌≡◌, refl, sym, ap, ◌∙◌, Bool, true, false, Bool-cases, inl, inr, ◌⊎◌, ◌&&◌, ◌||◌,
  not, Option, none, some, List, [], ◌∷◌, if◌then◌else◌, codes, text_eq, subst, text_eq_refl,
  eq_of_text_eq, is_empty, strchr, drop, Text,
}
use sysmngr.Prelude.Int.{ℤ, pos, negsuc}
use sysmngr.Fwbank.{Blob, Fork, child, Fwbank, sysmngr_task_fork}
use sysmngr.Fwbank.Ubus.{sysmngr_fwbank_set_bootbank}
use sysmngr.Uci.{Uci}
use sysmngr.Memory.Params.{Action, valueset}
use sysmngr.FwImages.{
  ImageLib, find_section, put_section, or_true, get_available, set_available, Images,
  set_device_boot_fwimage, set_boot_bank, copy_if, switched, globals_key, after_set_bootbank,
  fwbank_set_bootbank,
}

find-put :
    (id value : Text) (sections : List (Text × Text))
    → find_section id (put_section id value sections) ≡ some value
find-put id value [] = rw (text_eq_refl id) refl
find-put id value ((i, available) ∷ rest) = elim (Bool-cases (text_eq i id)) [
  | inl e ↦ rw (e, e) refl
  | inr e ↦ rw (e, e) (find-put id value rest)
]

find-put_other :
    (id other value : Text) (sections : List (Text × Text))
    → text_eq id other ≡ false
    → find_section other (put_section id value sections) ≡ find_section other sections
find-put_other id other value [] h = rw h refl
find-put_other id other value ((i, available) ∷ rest) h = elim (Bool-cases (text_eq i id)) [
  | inl e ↦
      let differs : text_eq i other ≡ false =
        subst (λ t. text_eq t other ≡ false) (sym (eq_of_text_eq i id e)) h in
      rw (e, differs) refl
  | inr e ↦ elim (Bool-cases (text_eq i other)) [
    | inl f ↦ rw (e, f) refl
    | inr f ↦ rw (e, f) (find-put_other id other value rest h)
  ]
]

-- After the availability of a bank is set, the value read of it is the one set, except that a bank that boots or
-- is active is not made unavailable and keeps its value. The other banks keep theirs.
pub set_available-get :
    (lib : ImageLib) (id other boot active value : Text) (sections : List (Text × Text))
    → text_eq id other ≡ false
    → let after = (set_available lib valueset id boot active value sections).1 in
      let on = lib.string_to_bool value in
      let kept = not on && (text_eq boot (codes "true") || text_eq active (codes "true")) in
      (get_available id after ≡ (
        if kept then get_available id sections else (if on then codes "true" else codes "false")))
      × (get_available other after ≡ get_available other sections)
unfolding set_available get_available
set_available-get lib id other boot active value sections h =
    elim (Bool-cases (
      not (lib.string_to_bool value)
      && (text_eq boot (codes "true") || text_eq active (codes "true")))) [
        | inl e ↦ rw e (refl, refl)
        | inr e ↦ rw e (
          ap or_true (find-put id _ sections) ∙ value_is_kept (lib.string_to_bool value),
          ap or_true (find-put_other id other _ sections h),
        )
      ]
  where
    value_is_kept :
        (on : Bool)
        → or_true (some (if on then codes "true" else codes "false"))
          ≡ (if on then codes "true" else codes "false")
    value_is_kept true = refl
    value_is_kept false = refl

module _ (u : Uci) (b : Blob) (lib : ImageLib) where
  -- The configuration notes the switch to a bank that is not marked as unavailable, after a task that asks the bank
  -- script for it was forked; what the script answers is not waited for.
  abbrev pub Switches : Fork → Text → Images u b lib → ℕ → Images u b lib → Type 0
  Switches fork linker s res after =
      (res ≡ 0)
      × ((dash : Text) × (strchr linker b'-' ≡ some dash)
          × (text_eq (lib.section_cont s.sections (drop 1 dash)) (codes "false") ≡ false)
          × ((fwbank_set_bootbank u b lib fork (drop 1 dash) s.fwbank).0 ≡ pos 0)
          × ((pid : ℕ) × (fork ≡ child pid))
          × (after.config
              ≡ u.set s.config (codes "sysmngr", codes "globals", codes "switch_bank") (codes "1")))

  abbrev pub Untouched : Images u b lib → Images u b lib → Type 0
  Untouched s after =
      (after.config ≡ s.config) × (after.copies ≡ s.copies) × (after.sections ≡ s.sections)

  abbrev Guarded : Fork → Text → Images u b lib → ℕ × Images u b lib → Type 0
  Guarded fork linker s (res, after) = Untouched s after ⊎ Switches fork linker s res after

  config-copy_if : (keep : Text) (s : Images u b lib) → (copy_if u b lib keep s).config ≡ s.config
  config-copy_if keep s = elim (Bool-cases (text_eq keep (codes "1"))) [
    | inl e ↦ rw e refl
    | inr e ↦ rw e refl
  ]

  switched_config :
      (s : Images u b lib)
      → (switched u b lib s).config
        ≡ u.set s.config (globals_key u b lib (codes "switch_bank")) (codes "1")
  switched_config s =
      let t = record s {
        config = u.set s.config (globals_key u b lib (codes "switch_bank")) (codes "1");
      } in
      config-copy_if (u.get t.config (globals_key u b lib (codes "keep_config")) (codes "1") 16) t

  fork-child :
      (fork : Fork) (n : ℕ) (s : Fwbank b)
      → (sysmngr_fwbank_set_bootbank b fork n none s).0 ≡ pos 0
      → (pid : ℕ) × (fork ≡ child pid)
  unfolding sysmngr_fwbank_set_bootbank sysmngr_task_fork
  fork-child (child pid) n s h = (pid, refl)
  fork-child Fork.no_memory n s h = cc
  fork-child Fork.no_pipe n s h = cc
  fork-child Fork.no_child n s h = cc

  answer-Guarded :
      (fork : Fork) (linker dash : Text) (s : Images u b lib) (answer : ℤ × Fwbank b)
      → strchr linker b'-' ≡ some dash
      → text_eq (lib.section_cont s.sections (drop 1 dash)) (codes "false") ≡ false
      → fwbank_set_bootbank u b lib fork (drop 1 dash) s.fwbank ≡ answer
      → Guarded fork linker s (after_set_bootbank u b lib s answer)
  answer-Guarded fork linker dash s (pos zero, f) d h e = inr (
    refl,
    (
      dash,
      d,
      h,
      ap (λ a. a.0) e,
      fork-child fork _ s.fwbank (ap (λ a. a.0) e),
      switched_config (record s { fwbank = f }),
    ),
  )
  answer-Guarded fork linker dash s (pos (suc n), f) d h e = inl (refl, refl, refl)
  answer-Guarded fork linker dash s (negsuc n, f) d h e = inl (refl, refl, refl)

  boot-Guarded :
      (fork : Fork) (linker : Text) (o : Option Text) (s : Images u b lib)
      → strchr linker b'-' ≡ o
      → Guarded fork linker s (set_boot_bank u b lib fork o s)
  boot-Guarded fork linker none s e = inl (refl, refl, refl)
  boot-Guarded fork linker (some dash) s e =
      elim (Bool-cases (text_eq (lib.section_cont s.sections (drop 1 dash)) (codes "false"))) [
        | inl c ↦ rw c (inl (refl, refl, refl))
        | inr c ↦ rw c (answer-Guarded fork linker dash s _ e c refl)
      ]

  -- Setting the boot image leaves the configuration, the counter of copies and the sections alone; or else it
  -- gives 0, the bank was not marked as unavailable, the task that asks the bank script for it could be forked,
  -- and the configuration notes the switch, whatever the script answers later.
  pub boot_fwimage-guarded :
      (fork : Fork) (action : Action) (path linker : Text) (s : Images u b lib)
      → let (res, after) = set_device_boot_fwimage u b lib fork action path linker s in
        Untouched s after ⊎ Switches fork linker s res after
  unfolding set_device_boot_fwimage
  boot_fwimage-guarded fork Action.valuecheck path linker s = inl (refl, refl, refl)
  boot_fwimage-guarded fork valueset path linker s = elim (Bool-cases (is_empty linker)) [
    | inl e ↦ rw e (inl (refl, refl, refl))
    | inr e ↦ rw e (boot-Guarded fork linker _ s refl)
  ]
