-- ===== src/FwImages/Reference.antt =====
-- src/fw_images.c: the reference to the boot image as it is read and as it is set.
use sysmngr.Prelude.{
  ℕ, ◌^◌, ◌<◌, ◌≡◌, refl, ap, ◌∙◌, Bool, true, false, Option, none, some, List, [], ◌∷◌, ◌++◌,
  codes, text_eq, take_all, arith, Text, sym,
}
use sysmngr.Libc.{u32, strtoul, decimal_ℤ, i32_of_u64}
use sysmngr.Libc.Decimal.{strtoul-decimal_int, length-decimal_int, decimal_int-nonempty}
use sysmngr.Uci.{Uci}
use sysmngr.Fwbank.{Blob, BlobType, bank_policy, dump_policy, Fork}
use sysmngr.Fwbank.Ubus.{sysmngr_fwbank_set_bootbank}
use sysmngr.Memory.Params.{valueset}
use sysmngr.DataModel.{DmLib}
use sysmngr.FwImages.{
  ImageLib, Images, banks_of, find_bank, get_blobmsg_option_value, get_fwbank_bank_id, pick_row,
  set_device_boot_fwimage, after_set_bootbank,
}
use sysmngr.FwImages.Values.{
  get_alias, get_fwbank_option_value, get_device_boot_fwimage, reference_to,
}

module _ (b : Blob) (past : Text × BlobType) where
  -- The attribute in the row "id" of a bank.
  abbrev pub HasId : b.Attr → b.Attr → Type 0
  HasId entry a =
      (before : Option b.Attr) × (rest : List (Option b.Attr)) × (b.parse
          (bank_policy ++ (past ∷ [])) (b.children entry)
        ≡ some (before ∷ some a ∷ rest))

  abbrev pub Says : Text → b.Attr → Bool → Type 0
  Says option entry answer =
      text_eq (get_fwbank_option_value b past entry option) (codes "true") ≡ answer

  abbrev pub NoneSays : Text → List b.Attr → Type 0
  NoneSays option [] = Unit
  NoneSays option (entry ∷ rest) = Says option entry false × NoneSays option rest

  pick_id :
      (before : Option b.Attr) (a : b.Attr) (rest : List (Option b.Attr))
      → pick_row b past (codes "id") 0 (before ∷ some a ∷ rest)
        ≡ decimal_ℤ (i32_of_u64 (b.get_u32 a))
  pick_id none a rest = refl
  pick_id (some x) a rest = refl

  get_id :
      (entry a : b.Attr)
      → HasId entry a
      → get_blobmsg_option_value b past (some entry) (codes "id")
        ≡ decimal_ℤ (i32_of_u64 (b.get_u32 a))
  unfolding get_blobmsg_option_value
  get_id entry a (before, rest, e) = rw (e, get_blobmsg_option_value) (pick_id before a _)

  find_bank-first :
      (option : Text) (before after : List b.Attr) (entry : b.Attr)
      → NoneSays option before
      → Says option entry true
      → find_bank b past option (before ++ (entry ∷ after))
        ≡ get_blobmsg_option_value b past (some entry) (codes "id")
  unfolding get_fwbank_option_value
  find_bank-first option [] after entry n s = rw s refl
  find_bank-first option (e ∷ before) after entry n s =
      rw n.0 (find_bank-first option before after entry n.1 s)

  module _ (u : Uci) (d : DmLib u) (lib : ImageLib) where
    reference_to-id :
        (n : ℕ)
        → n < 2 ^ 32
        → reference_to b past u d (decimal_ℤ (i32_of_u64 n))
          ≡ d.get_references
              (codes "Device.DeviceInfo.FirmwareImage.")
              (codes "Alias")
              (codes "cpe-" ++ decimal_ℤ (i32_of_u64 n))
    reference_to-id n h = rw (decimal_int-nonempty n h) (
        ap (d.get_references (codes "Device.DeviceInfo.FirmwareImage.") (codes "Alias"))
          (take_all 15 _ (omega (arith, length-decimal_int n h))))

    -- If a bank is the first in the dump that boots, and has an id of 32 bits, then the parameter on the boot image
    -- reads as the reference to the alias of that bank; and choosing as the boot image the object with that
    -- alias, if no section marks it as unavailable, asks the daemon for the bank with that very id.
    pub boot_fwimage-alias :
        (dump : List b.Attr) (before after : List b.Attr) (entry a : b.Attr) (fork : Fork)
        (path : Text) (s : Images u b lib)
        → banks_of b past (b.parse dump_policy dump) ≡ before ++ (entry ∷ after)
        → NoneSays (codes "boot") before
        → Says (codes "boot") entry true
        → HasId entry a
        → b.get_u32 a < 2 ^ 32
        → text_eq
            (lib.section_cont s.sections (get_fwbank_option_value b past entry (codes "id")))
            (codes "false")
          ≡ false
        → let alias = get_alias b past entry in
          (get_device_boot_fwimage b past u d (some dump)
            ≡ some
                (d.get_references (codes "Device.DeviceInfo.FirmwareImage.") (codes "Alias") alias))
          × (set_device_boot_fwimage u b lib fork valueset path alias s
              ≡ after_set_bootbank u b lib s
                  (sysmngr_fwbank_set_bootbank b fork (b.get_u32 a) none s.fwbank))
    unfolding get_device_boot_fwimage get_alias get_fwbank_option_value get_fwbank_bank_id
        set_device_boot_fwimage
    boot_fwimage-alias dump before after entry a fork path s banks none_before boots id small free =
        let is_id = get_id entry a id in
        (
          ap some (
              ap (λ l. reference_to b past u d (find_bank b past (codes "boot") l)) banks
              ∙ ap (reference_to b past u d)
                  (find_bank-first (codes "boot") before after entry none_before boots ∙ is_id)
              ∙ reference_to-id (b.get_u32 a) small
              ∙ ap
                  (λ id.
                    d.get_references (codes "Device.DeviceInfo.FirmwareImage.") (codes "Alias")
                      (codes "cpe-" ++ id))
                  (sym is_id)),
          rw free (
              ap
                (λ n.
                  after_set_bootbank u b lib s (sysmngr_fwbank_set_bootbank b fork n none s.fwbank))
                (ap (λ t. u32 (strtoul t)) is_id ∙ strtoul-decimal_int (b.get_u32 a) small)),
        )
