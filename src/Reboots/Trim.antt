-- ===== src/Reboots/Trim.antt =====
-- Device.DeviceInfo.Reboots.MaxRebootEntries and RemoveAllReboots(): the data model trims the list.
use sysmngr.Prelude.{
  ℕ, zero, suc, ◌+◌, ◌-◌, ◌≤◌, ◌≡◌, refl, sym, ap, ◌∙◌, true, false, Bool-cases, inl, inr, List, [],
  ◌∷◌, ltb, if◌then◌else◌, arith, Text, codes, length, drop, drop-nil, drop-cons, drop_none,
  length-drop, le→ltb_false, is_empty, snprintf_s,
}
use sysmngr.Prelude.Int.{ℤ, pos, negsuc, pos_part, ◌-ℤ◌, ltb_ℤ}
use sysmngr.Libc.{strtol, to_int}
use sysmngr.Uci.{Uci, UciLaws, erase}
use sysmngr.Reboots.{sysmngr_pkg, reboot_type, reboots_key, entry_limit}
use sysmngr.Reboots.Params.{
  delete_or_keep, delete_first, delete_all, trim_entries, set_max_reboot_entries,
  remove_all_reboots, remove_reboot,
}
use sysmngr.Reboots.Entries.{limit_of, entry_limit-pos, WritesSucceed, names_of, names-delete_head}

few_left : (a b : ℕ) → ltb_ℤ (pos 0) (pos a -ℤ pos b) ≡ false → a - b ≡ 0
few_left a b h = ground arith

surplus : (a b : ℕ) → ltb_ℤ (pos 0) (pos a -ℤ pos b) ≡ true → pos_part (pos a -ℤ pos b) - 0 ≡ a - b
surplus a b h = ground arith

-- What a new limit leaves of a list: nothing at 0, the newest sections within the limit otherwise.
abbrev pub trimmed : ℤ → List Text → List Text
trimmed (pos zero) ns = []
trimmed m ns = drop (length ns - limit_of m) ns

trimmed_fits : (m : ℤ) (ns : List Text) → length (trimmed m ns) ≤ limit_of m
trimmed_fits (pos zero) ns = omega arith
trimmed_fits (pos (suc n)) ns = omega (arith, length-drop (length ns - suc n) ns)
trimmed_fits (negsuc n) ns = omega (arith, length-drop (length ns - 32) ns)

module _ (u : Uci) (laws : UciLaws u) (works : WritesSucceed u) where
  names-delete_or_keep :
      (c : u.Config) (n : Text) (ns : List Text)
      → names_of u c ≡ n ∷ ns
      → names_of u (delete_or_keep u c n) ≡ ns
  names-delete_or_keep c n ns e =
      let (c', d) = works.deletes c sysmngr_pkg n in
      rw (d, delete_or_keep) (names-delete_head u laws c c' n ns d e)

  names-delete_all :
      (ns : List Text) (c : u.Config) → names_of u c ≡ ns → names_of u (delete_all u ns c) ≡ []
  names-delete_all [] c e = e
  names-delete_all (n ∷ ns) c e = names-delete_all ns _ (names-delete_or_keep c n ns e)

  delete_first-done :
      (idx k : ℕ) (ns : List Text) (c : u.Config) → k ≤ idx → delete_first u idx k ns c ≡ c
  delete_first-done idx k [] c h = refl
  delete_first-done idx k (n ∷ ns) c h =
      rw (le→ltb_false idx k h) (delete_first-done (idx + 1) k ns c (omega arith))

  names-delete_first :
      (idx k : ℕ) (ns : List Text) (c : u.Config)
      → names_of u c ≡ ns
      → names_of u (delete_first u idx k ns c) ≡ drop (k - idx) ns
  names-delete_first idx k [] c e = e ∙ sym (drop-nil Text (k - idx))
  names-delete_first idx k (n ∷ ns) c e = elim (Bool-cases (ltb idx k)) [
    | inl more ↦ rw more (
        names-delete_first (idx + 1) k ns _ (names-delete_or_keep c n ns e)
        ∙ sym (drop-cons (k - idx) (k - (idx + 1)) n ns (ground arith)))
    | inr no_more ↦ rw no_more (
        ap (names_of u) (delete_first-done (idx + 1) k ns c (ground arith))
        ∙ e
        ∙ sym (drop_none (k - idx) (n ∷ ns) (ground arith)))
  ]

  names-trim_to_limit :
      (m : ℤ) (c : u.Config)
      → let to_delete = pos (length (names_of u c)) -ℤ entry_limit m in
        names_of u (
          if ltb_ℤ (pos 0) to_delete
          then delete_first u 0 (pos_part to_delete) (names_of u c) c
          else c)
        ≡ drop (length (names_of u c) - limit_of m) (names_of u c)
  names-trim_to_limit m c =
      rw (entry_limit-pos m)
        (elim (Bool-cases (ltb_ℤ (pos 0) (pos (length (names_of u c)) -ℤ pos (limit_of m)))) [
          | inl many ↦ rw many (
              names-delete_first 0 _ (names_of u c) c refl
              ∙ ap (λ j. drop j (names_of u c)) (surplus _ _ many))
          | inr few ↦ rw few (sym (drop_none _ (names_of u c) (few_left _ _ few)))
        ])

  names-trim : (m : ℤ) (c : u.Config) → names_of u (trim_entries u m c) ≡ trimmed m (names_of u c)
  names-trim (pos zero) c = names-delete_all _ c refl
  names-trim (pos (suc n)) c = names-trim_to_limit (pos (suc n)) c
  names-trim (negsuc n) c = names-trim_to_limit (negsuc n) c

  -- If all deletes succeed, then setting MaxRebootEntries to a text that is not empty stores the text
  -- and leaves of the reboot sections the newest ones within the limit (none at 0, 32 for a negative
  -- limit), in their order.
  pub set_max-names :
      (value : Text) (c : u.Config)
      → is_empty value ≡ false
      → let c' = set_max_reboot_entries u value c in
        let m = to_int (strtol value) in
        (u.sections c' sysmngr_pkg reboot_type ≡ trimmed m (u.sections c sysmngr_pkg reboot_type))
        × (length (u.sections c' sysmngr_pkg reboot_type) ≤ limit_of m)
        × (u.get c' (reboots_key (codes "max_reboot_entries")) (codes "3") 16 ≡ snprintf_s 16 value)
  unfolding set_max_reboot_entries
  set_max-names value c full =
      let names = laws.sections-set _ _ value _ _ ∙ names-trim (to_int (strtol value)) c in
      (
        names,
        rw names (trimmed_fits (to_int (strtol value)) (names_of u c)),
        laws.get-set _ _ _ value _ 16 ∙ rw full,
      )

  -- If all deletes succeed, RemoveAllReboots() leaves no reboot section.
  remove_all-names :
      (c : u.Config) → u.sections (remove_all_reboots u c) sysmngr_pkg reboot_type ≡ []
  unfolding remove_all_reboots
  remove_all-names c = names-delete_all (names_of u c) c refl

  -- Remove() takes the section with the name out of the list.
  names-remove :
      (c : u.Config) (name : Text) → names_of u (remove_reboot u name c) ≡ erase name (names_of u c)
  unfolding remove_reboot
  names-remove c name =
      let (c', d) = works.deletes c sysmngr_pkg name in
      rw (d, delete_or_keep) (laws.sections-delete c c' sysmngr_pkg name reboot_type d)
