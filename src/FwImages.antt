-- ===== src/FwImages.antt =====
-- src/fw_images.c: what the data model shows of the banks, their availability and the choice of the boot
-- bank. The attributes of the dump are those of Fwbank. `past` is what stands in memory behind the eight
-- rows of sysmngr_bank_policy, which the code reads as a ninth.
pub mod Download
pub mod Activate
pub mod Banks
pub mod Reboot
pub mod Values
pub mod Reference
use sysmngr.Prelude.{
  ℕ, zero, ◌+◌, ◌==◌, Bool, true, false, ◌&&◌, ◌||◌, not, Option, none, some, List, [], ◌∷◌, ◌++◌,
  if◌then◌else◌, codes, text_eq, is_empty, get_or, take, strchr, drop,
}
use sysmngr.Prelude.Strings.{Text}
use sysmngr.Prelude.Int.{ℤ, pos, negsuc}
use sysmngr.Libc.{u32, decimal_ℤ, i32_of_u64, strtoul}
use sysmngr.Uci.{Uci, Key}
use sysmngr.Fwbank.{Blob, BlobType, Policy, bank_policy, dump_policy, Fork, Fwbank}
use sysmngr.Fwbank.Ubus.{sysmngr_fwbank_set_bootbank}
use sysmngr.Memory.Params.{Action, valuecheck, valueset}

module _ (b : Blob) (past : Text × BlobType) where
  abbrev pub row_name : ℕ → Text
  row_name i = (get_or (bank_policy ++ (past ∷ [])) i ([], BlobType.string)).0

  abbrev pub truth : Bool → Text
  truth x = if x then codes "true" else codes "false"

  -- The text of the attribute in place `i`; the id is printed by "%d".
  abbrev pub print_attr : ℕ → b.Attr → Text
  print_attr i a =
      if i == 1
      then decimal_ℤ (i32_of_u64 (b.get_u32 a))
      else if i == 2 || (i == 3 || i == 4)
      then truth (b.get_bool a)
      else b.get_string a

  -- The first of nine rows that has the name and an attribute.
  abbrev pub pick_row : Text → ℕ → List (Option b.Attr) → Text
  pick_row option i [] = []
  pick_row option i (none ∷ tb) = pick_row option (i + 1) tb
  pick_row option i (some a ∷ tb) =
      let later = pick_row option (i + 1) tb in
      if text_eq (row_name i) option then print_attr i a else later

  -- A null entry is none. The places are null where blobmsg_parse refuses the data.
  unfoldable pub get_blobmsg_option_value : Option b.Attr → Text → Text
  get_blobmsg_option_value none option = []
  get_blobmsg_option_value (some entry) option =
      elim (b.parse (bank_policy ++ (past ∷ [])) (b.children entry)) [
        | none ↦ []
        | some tb ↦ pick_row option 0 (take 9 tb)
      ]

  abbrev pub find_bank : Text → List b.Attr → Text
  find_bank option [] = []
  find_bank option (entry ∷ rest) =
      let later = find_bank option rest in
      if text_eq (get_blobmsg_option_value (some entry) option) (codes "true")
      then get_blobmsg_option_value (some entry) (codes "id")
      else later

  abbrev pub banks_of : Option (List (Option b.Attr)) → List b.Attr
  banks_of none = []
  banks_of (some tb) = elim (get_or tb 0 none) [ none ↦ [] | some banks ↦ b.children banks ]

  -- The id of the first bank whose option is true. A dump that was never filled is a null pointer: none.
  unfoldable pub get_fwbank_bank_id : Option (List b.Attr) → Text → Option Text
  unfolding get_blobmsg_option_value
  get_fwbank_bank_id none option = none
  get_fwbank_bank_id (some dump) option =
      some (find_bank option (banks_of (b.parse dump_policy dump)))

-- What libbbfdm does for the parameters below.
pub record ImageLib : Type 0 where
  -- true if the value is accepted.
  pub validate_boolean : Text → Bool
  pub validate_string : Text → Bool
  pub allowed_object : Text → Bool
  pub string_to_bool : Text → Bool
  -- The value of "available" in the section that get_dmmap_section_of_config_section_cont finds.
  pub section_cont : List (Text × Text) → Text → Text
  pub fault_9001 : ℕ
  pub fault_9007 : ℕ

-- The sections fw_image of dmmap_fw_image as pairs of an id and what is in "available".
abbrev pub find_section : Text → List (Text × Text) → Option Text
find_section id [] = none
find_section id ((i, available) ∷ rest) =
    if text_eq i id then some available else find_section id rest

-- The first section with the id takes the value, or a new one at the end.
abbrev pub put_section : Text → Text → List (Text × Text) → List (Text × Text)
put_section id value [] = (id, value) ∷ []
put_section id value ((i, available) ∷ rest) =
    if text_eq i id then (i, value) ∷ rest else (i, available) ∷ put_section id value rest

abbrev pub or_true : Option Text → Text
or_true (some (c ∷ s)) = c ∷ s
or_true _ = codes "true"

unfoldable pub get_available : Text → List (Text × Text) → Text
get_available id sections = or_true (find_section id sections)

-- `boot` and `active` are what the dump says of the bank.
unfoldable pub set_available :
    ImageLib → Action → Text → Text → Text → Text → List (Text × Text) → ℕ × List (Text × Text)
set_available lib valuecheck id boot active value sections =
    (if lib.validate_boolean value then 0 else lib.fault_9007, sections)
set_available lib valueset id boot active value sections =
    let on = lib.string_to_bool value in
    if not on && (text_eq boot (codes "true") || text_eq active (codes "true"))
    then (lib.fault_9001, sections)
    else (0, put_section id (if on then codes "true" else codes "false") sections)

module _ (u : Uci) (b : Blob) (lib : ImageLib) where
  -- `copies` counts the runs of copy_config.
  pub record Images : Type 0 where
    pub config : u.Config
    pub sections : List (Text × Text)
    pub fwbank : Fwbank b
    pub copies : ℕ

  abbrev pub globals_key : Text → Key
  globals_key o = (codes "sysmngr", codes "globals", o)

  abbrev pub fwbank_set_bootbank : Fork → Text → Fwbank b → ℤ × Fwbank b
  fwbank_set_bootbank fork bank_id s =
      sysmngr_fwbank_set_bootbank b fork (u32 (strtoul bank_id)) none s

  abbrev pub copy_if : Text → Images → Images
  copy_if keep_config s =
      if text_eq keep_config (codes "1") then record s { copies = s.copies + 1 } else s

  abbrev pub switched : Images → Images
  switched s =
      let t = record s {
        config = u.set s.config (globals_key (codes "switch_bank")) (codes "1");
      } in
      copy_if (u.get t.config (globals_key (codes "keep_config")) (codes "1") 16) t

  abbrev pub after_set_bootbank : Images → ℤ × Fwbank b → ℕ × Images
  after_set_bootbank s (pos zero, f) = (0, switched (record s { fwbank = f }))
  after_set_bootbank s (_, f) = (lib.fault_9001, record s { fwbank = f })

  -- From the '-' of the alias on, which stands before the id of the bank.
  abbrev pub set_boot_bank : Fork → Option Text → Images → ℕ × Images
  set_boot_bank fork none s = (lib.fault_9001, s)
  set_boot_bank fork (some dash) s =
      let bank_id = drop 1 dash in
      if text_eq (lib.section_cont s.sections bank_id) (codes "false")
      then (lib.fault_9001, s)
      else after_set_bootbank s (fwbank_set_bootbank fork bank_id s.fwbank)

  -- `path` and `linker` are the reference that libbbfdm makes of the value.
  unfoldable pub set_device_boot_fwimage : Fork → Action → Text → Text → Images → ℕ × Images
  set_device_boot_fwimage fork valuecheck path linker s =
      (if lib.validate_string path && lib.allowed_object path then 0 else lib.fault_9007, s)
  set_device_boot_fwimage fork valueset path linker s =
      if is_empty linker then (0, s) else set_boot_bank fork (strchr linker b'-') s
