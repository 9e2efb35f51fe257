-- ===== src/Reboots/Register.antt =====
-- The whole boot action: what it does to the list of reboot sections.
use sysmngr.Prelude.{
  zero, suc, ◌+◌, ◌-◌, ◌≤◌, ◌≡◌, ◌≢◌, refl, ap, ◌∙◌, true, false, [], ◌∷◌, ◌++◌, Text, codes,
  text_eq, strstr, length, drop,
}
use sysmngr.Prelude.Int.{ℤ, pos, negsuc}
use sysmngr.Libc.{strtol, to_int}
use sysmngr.Uci.{Uci, UciLaws}
use sysmngr.Reboots.{
  BootLib, Boot, State, get_boot_option_value, sysmngr_pkg, reboot_type, reboots_key, section_name,
  delete_excess_reboot_sections, create_reboot_section, record_boot, max_entries_option,
  sysmngr_register_boot_action, count_boot, increment_option_counter, reset_option_counter,
}
use sysmngr.Reboots.Entries.{
  limit_of, WritesSucceed, names_of, names-delete_excess, taken-delete_excess, names-create, fits,
  view-if,
}

module _ (u : Uci) (laws : UciLaws u) where
  record_boot-create :
      (lib : BootLib) (boot : Boot) (trigger reason : Text) (m : ℤ) (c : u.Config)
      → m ≢ pos 0
      → record_boot u lib boot trigger reason m c
        ≡ create_reboot_section u lib boot trigger reason (delete_excess_reboot_sections u m c)
  unfolding record_boot
  record_boot-create lib boot trigger reason (pos zero) c ne = absurd (ne refl)
  record_boot-create lib boot trigger reason (pos (suc n)) c ne = refl
  record_boot-create lib boot trigger reason (negsuc n) c ne = refl

  -- Counting writes options alone.
  names-increment :
      (name : Text) (c : u.Config) → names_of u (increment_option_counter u name c) ≡ names_of u c
  unfolding increment_option_counter
  names-increment name c = laws.sections-set _ _ _ _ _

  taken-increment :
      (name s : Text) (c : u.Config)
      → u.taken (increment_option_counter u name c) sysmngr_pkg s ≡ u.taken c sysmngr_pkg s
  unfolding increment_option_counter
  taken-increment name s c = laws.taken-set _ _ _ _ _

  names-reset :
      (name value : Text) (c : u.Config)
      → names_of u (reset_option_counter u name value c) ≡ names_of u c
  unfolding reset_option_counter
  names-reset name value c = laws.sections-set _ _ _ _ _

  taken-reset :
      (name value s : Text) (c : u.Config)
      → u.taken (reset_option_counter u name value c) sysmngr_pkg s ≡ u.taken c sysmngr_pkg s
  unfolding reset_option_counter
  taken-reset name value s c = laws.taken-set _ _ _ _ _

  -- What the two writers of counters leave alone, the counting of a boot leaves alone.
  view-count_boot :
      {X : Type 0} (view : u.Config → X) (trigger reason : Text) (c : u.Config)
      → ((name : Text) (d : u.Config)
          → text_eq name (codes "max_reboot_entries") ≡ false
          → view (increment_option_counter u name d) ≡ view d)
      → ((name value : Text) (d : u.Config)
          → text_eq name (codes "max_reboot_entries") ≡ false
          → view (reset_option_counter u name value d) ≡ view d)
      → view (count_boot u trigger reason c) ≡ view c
  unfolding count_boot
  view-count_boot view trigger reason c inc res =
      view-if view (text_eq reason (codes "POR_RESET")) _ _ (inc _ _ refl) (inc _ _ refl)
      ∙ view-if view (strstr reason (codes "watchdog")) _ _ (inc _ _ refl) refl
      ∙ view-if view (text_eq trigger (codes "defaultreset")) _ _ (res _ _ _ refl ∙ res _ _ _ refl)
          (inc _ _ refl ∙ inc _ _ refl)

  max_entries-set :
      (name value : Text) (c : u.Config)
      → text_eq name (codes "max_reboot_entries") ≡ false
      → max_entries_option u (u.set c (reboots_key name) value) ≡ max_entries_option u c
  unfolding max_entries_option
  max_entries-set name value c h =
      ap (λ t. to_int (strtol t))
        (laws.get-set c (reboots_key name) (reboots_key (codes "max_reboot_entries")) value
            (codes "3") 16
          ∙ rw h)

  max_entries-increment :
      (name : Text) (c : u.Config)
      → text_eq name (codes "max_reboot_entries") ≡ false
      → max_entries_option u (increment_option_counter u name c) ≡ max_entries_option u c
  unfolding increment_option_counter
  max_entries-increment name c h = max_entries-set name _ c h

  max_entries-reset :
      (name value : Text) (c : u.Config)
      → text_eq name (codes "max_reboot_entries") ≡ false
      → max_entries_option u (reset_option_counter u name value c) ≡ max_entries_option u c
  unfolding reset_option_counter
  max_entries-reset name value c h = max_entries-set name value c h

  module _ (works : WritesSucceed u) where
    -- If the limit is not 0, the name of the new section is new and all writes succeed, then recording a
    -- boot drops the oldest sections so that, with the new one at the end, at most the limit remain (32
    -- for a negative limit), and keeps the others in their order.
    pub record_boot-names :
        (lib : BootLib) (boot : Boot) (trigger reason : Text) (m : ℤ) (c : u.Config)
        → m ≢ pos 0
        → u.taken c sysmngr_pkg (section_name boot.now) ≡ false
        → let kept =
            drop
              (length (u.sections c sysmngr_pkg reboot_type) + 1 - limit_of m)
              (u.sections c sysmngr_pkg reboot_type) in
          let after =
            u.sections (record_boot u lib boot trigger reason m c) sysmngr_pkg reboot_type in
          (after ≡ kept ++ (section_name boot.now ∷ [])) × (length after ≤ limit_of m)
    record_boot-names lib boot trigger reason m c ne h =
        let e =
          ap (names_of u) (record_boot-create lib boot trigger reason m c ne)
          ∙ names-create u laws lib boot trigger reason _ (taken-delete_excess u laws m c _ h)
          ∙ ap (λ ns. ns ++ (section_name boot.now ∷ [])) (names-delete_excess u laws works m c) in
        (e, rw e (fits (names_of u c) (section_name boot.now) m))

    -- If the boot action has not run, the limit is not 0, the name of the new section is new and all
    -- writes succeed, then the action marks itself done, drops the oldest reboot sections so that at
    -- most the limit remain (32 for a negative limit) and puts the new section last.
    pub register-names :
        (lib : BootLib) (boot : Boot) (s : State u) (m : ℤ)
        → s.locked ≡ false
        → max_entries_option u s.config ≡ m
        → m ≢ pos 0
        → u.taken s.config sysmngr_pkg (section_name boot.now) ≡ false
        → let after = sysmngr_register_boot_action u lib boot s in
          let names = u.sections s.config sysmngr_pkg reboot_type in
          let names' = u.sections after.config sysmngr_pkg reboot_type in
          (after.locked ≡ true)
          × (names' ≡ drop (length names + 1 - limit_of m) names ++ (section_name boot.now ∷ []))
          × (length names' ≤ limit_of m)
    unfolding sysmngr_register_boot_action
    register-names lib boot s m unlocked limit ne new =
        let trigger = get_boot_option_value lib (codes "triggered") 32 boot in
        let reason = get_boot_option_value lib (codes "reason") 32 boot in
        let c = count_boot u trigger reason s.config in
        let same =
          view-count_boot (names_of u) trigger reason s.config (λ n d _. names-increment n d)
            (λ n v d _. names-reset n v d) in
        let limit' =
          view-count_boot (max_entries_option u) trigger reason s.config max_entries-increment
            max_entries-reset
          ∙ limit in
        let new' =
          view-count_boot (λ x. u.taken x sysmngr_pkg (section_name boot.now)) trigger reason
            s.config (λ n d _. taken-increment n _ d) (λ n v d _. taken-reset n v _ d)
          ∙ new in
        let (names, few) = record_boot-names lib boot trigger reason m c ne new' in
        rw (unlocked, limit')
          (
            refl,
            names
                ∙ ap (λ ns. drop (length ns + 1 - limit_of m) ns ++ (section_name boot.now ∷ []))
                    same,
            few,
          )
