-- ===== src/Reboots/Entries.antt =====
-- src/reboots.c: the list of reboot sections and its limit.
use sysmngr.Prelude.{
  ℕ, zero, suc, ◌+◌, ◌-◌, ◌≤◌, ◌<◌, ◌≡◌, subst, Option-cases, refl, sym, ap, ◌∙◌, Bool, true, false,
  Bool-cases, inl, inr, some, List, [], ◌∷◌, ◌++◌, leb, if◌then◌else◌, arith, Text, codes, text_eq,
  text_eq_refl, length, drop, drop-nil, drop-cons, drop_none, length-drop, length-append,
  lt→leb_false,
}
use sysmngr.Prelude.Int.{ℤ, pos, negsuc, pos_part, ◌-ℤ◌, ltb_ℤ}
use mathlib.Core.Option.{some-injective}
use sysmngr.Uci.{Uci, UciLaws, erase}
use sysmngr.Reboots.{
  BootLib, Boot, sysmngr_pkg, reboot_type, entry_limit, section_name, remove_each,
  delete_excess_reboot_sections, create_reboot_section, set_cause,
}

-- The limit as a number: a limit that is not positive stands for 32.
abbrev pub limit_of : ℤ → ℕ
limit_of (pos zero) = 32
limit_of (pos (suc n)) = suc n
limit_of (negsuc n) = 32

pub entry_limit-pos : (m : ℤ) → entry_limit m ≡ pos (limit_of m)
entry_limit-pos (pos zero) = refl
entry_limit-pos (pos (suc n)) = ground arith
entry_limit-pos (negsuc n) = ground arith

few_left : (a b : ℕ) → ltb_ℤ (pos a -ℤ pos b) (pos 0) ≡ true → a + 1 - b ≡ 0
few_left a b h = ground arith

excess_dropped :
    (a b : ℕ)
    → ltb_ℤ (pos a -ℤ pos b) (pos 0) ≡ false
    → pos_part (pos a -ℤ pos b) + 1 - 0 ≡ a + 1 - b
excess_dropped a b h = ground arith

limit_pos : (m : ℤ) → 1 ≤ limit_of m
limit_pos (pos zero) = omega arith
limit_pos (pos (suc n)) = omega arith
limit_pos (negsuc n) = omega arith

pub fits :
    (ns : List Text) (s : Text) (m : ℤ)
    → length (drop (length ns + 1 - limit_of m) ns ++ (s ∷ [])) ≤ limit_of m
fits ns s m = omega (
  arith,
  length-append (drop (length ns + 1 - limit_of m) ns) (s ∷ []),
  length-drop (length ns + 1 - limit_of m) ns,
  limit_pos m,
)

pub view-if :
    {A X : Type 0} (view : A → X) (b : Bool) (s t : A) {x : X}
    → view s ≡ x
    → view t ≡ x
    → view (if b then s else t) ≡ x
view-if view true s t p q = p
view-if view false s t p q = q

-- Every delete and every commit of the configuration succeeds.
pub record WritesSucceed (u : Uci) : Type 0 where
  pub deletes : (c : u.Config) (p s : Text) → (c' : u.Config) × (u.delete c p s ≡ some c')
  pub commits : (c : u.Config) (p : Text) → u.commit c p ≡ true

abbrev pub names_of : (u : Uci) → u.Config → List Text
names_of u c = u.sections c sysmngr_pkg reboot_type

module _ (u : Uci) (laws : UciLaws u) where
  -- A delete of the first section leaves the rest.
  pub names-delete_head :
      (c c' : u.Config) (n : Text) (ns : List Text)
      → u.delete c sysmngr_pkg n ≡ some c'
      → names_of u c ≡ n ∷ ns
      → names_of u c' ≡ ns
  names-delete_head c c' n ns d e =
      laws.sections-delete c c' sysmngr_pkg n reboot_type d ∙ ap (erase n) e ∙ rw (text_eq_refl n)

  remove_each-done :
      (k r : ℕ) (ns : List Text) (c : u.Config) → k < r → remove_each u k r ns c ≡ some c
  remove_each-done k r [] c h = refl
  remove_each-done k r (n ∷ ns) c h = rw (lt→leb_false r k h) (remove_each-done k r ns c h)

  module _ (works : WritesSucceed u) where
    remove_each-names :
        (k r : ℕ) (ns : List Text) (c : u.Config)
        → names_of u c ≡ ns
        → (c' : u.Config) × (remove_each u k r ns c ≡ some c')
          × (names_of u c' ≡ drop (k + 1 - r) ns)
    remove_each-names k r [] c e = (c, refl, e ∙ sym (drop-nil Text (k + 1 - r)))
    remove_each-names k r (n ∷ ns) c e = elim (Bool-cases (leb r k)) [
      | inl more ↦
          let (c1, d) = works.deletes c sysmngr_pkg n in
          let (c', done, names) =
            remove_each-names k (r + 1) ns c1 (names-delete_head c c1 n ns d e) in
          (
            c',
            rw (more, d) done,
            names ∙ sym (drop-cons (k + 1 - r) (k + 1 - (r + 1)) n ns (ground arith)),
          )
      | inr no_more ↦ (
        c,
        rw no_more (remove_each-done k r ns c (ground arith)),
        e ∙ sym (drop_none (k + 1 - r) (n ∷ ns) (ground arith)),
      )
    ]

    -- The boot action leaves room for one more section below the limit: the oldest sections go.
    pub names-delete_excess :
        (m : ℤ) (c : u.Config)
        → names_of u (delete_excess_reboot_sections u m c)
          ≡ drop (length (names_of u c) + 1 - limit_of m) (names_of u c)
    unfolding delete_excess_reboot_sections
    names-delete_excess m c =
        rw (entry_limit-pos m)
          (elim (Bool-cases (ltb_ℤ (pos (length (names_of u c)) -ℤ pos (limit_of m)) (pos 0))) [
            | inl few ↦ rw few (sym (drop_none _ (names_of u c) (few_left _ _ few)))
            | inr many ↦
                let k = pos_part (pos (length (names_of u c)) -ℤ pos (limit_of m)) in
                let (c', done, names) = remove_each-names k 0 (names_of u c) c refl in
                rw (many, done, works.commits c' sysmngr_pkg)
                  (names ∙ ap (λ j. drop j (names_of u c)) (excess_dropped _ _ many))
          ])

  taken-remove_each :
      (k r : ℕ) (ns : List Text) (c c' : u.Config) (s : Text)
      → remove_each u k r ns c ≡ some c'
      → u.taken c sysmngr_pkg s ≡ false
      → u.taken c' sysmngr_pkg s ≡ false
  taken-remove_each k r [] c c' s e h =
      subst (λ x. u.taken x sysmngr_pkg s ≡ false) (some-injective _ _ e) h
  taken-remove_each k r (n ∷ ns) c c' s e h = elim (Bool-cases (leb r k)) [
    | inl more ↦ elim (Option-cases (u.delete c sysmngr_pkg n)) [
      | inl failed ↦ cc (rw (more, failed) at e)
      | inr (c1, d) ↦
          taken-remove_each k (r + 1) ns c1 c' s (rw (more, d) at e)
            (laws.taken-delete c c1 sysmngr_pkg n s d h)
    ]
    | inr no_more ↦ taken-remove_each k r ns c c' s (rw no_more at e) h
  ]

  pub taken-delete_excess :
      (m : ℤ) (c : u.Config) (s : Text)
      → u.taken c sysmngr_pkg s ≡ false
      → u.taken (delete_excess_reboot_sections u m c) sysmngr_pkg s ≡ false
  unfolding delete_excess_reboot_sections
  taken-delete_excess m c s h =
      elim (Bool-cases (ltb_ℤ (pos (length (names_of u c)) -ℤ entry_limit m) (pos 0))) [
        | inl few ↦ rw few h
        | inr many ↦
            rw many
              (elim (Option-cases (
                remove_each u (pos_part (pos (length (names_of u c)) -ℤ entry_limit m)) 0
                  (names_of u c) c)) [
                    | inl failed ↦ rw failed h
                    | inr (c', d) ↦ rw d (elim (Bool-cases (u.commit c' sysmngr_pkg)) [
                      | inl ok ↦ rw ok (taken-remove_each _ 0 (names_of u c) c c' s d h)
                      | inr not_ok ↦ rw not_ok h
                    ])
                  ])
      ]

  names-set_cause :
      (trigger sec : Text) (c : u.Config) → names_of u (set_cause u trigger sec c) ≡ names_of u c
  unfolding set_cause
  names-set_cause trigger sec c = elim (Bool-cases (text_eq trigger (codes "defaultreset"))) [
    | inl e ↦ rw e (laws.sections-set _ _ _ _ _)
    | inr e ↦ rw e (laws.sections-set _ _ _ _ _ ∙ laws.sections-set _ _ _ _ _)
  ]

  -- A section whose name is new stands last.
  pub names-create :
      (lib : BootLib) (boot : Boot) (trigger reason : Text) (c : u.Config)
      → u.taken c sysmngr_pkg (section_name boot.now) ≡ false
      → names_of u (create_reboot_section u lib boot trigger reason c)
        ≡ names_of u c ++ (section_name boot.now ∷ [])
  unfolding create_reboot_section
  names-create lib boot trigger reason c h =
      laws.sections-set _ _ _ _ _
      ∙ names-set_cause trigger (section_name boot.now) _
      ∙ laws.sections-set _ _ _ _ _
      ∙ laws.sections-set _ _ _ _ _
      ∙ laws.sections-add c sysmngr_pkg (section_name boot.now) reboot_type h
