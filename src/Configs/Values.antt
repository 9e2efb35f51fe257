-- ===== src/Configs/Values.antt =====
-- src/configs.c: the instances of VendorConfigFile and what their parameters read. `d` has the alias that dmmap keeps.
use sysmngr.Prelude.{
  ℕ, Bool, false, Option, none, some, List, [], ◌∷◌, ◌++◌, map, if◌then◌else◌, codes, text_eq,
  snprintf_s, Text,
}
use sysmngr.Prelude.Int.{ℤ}
use sysmngr.Libc.{decimal}
use sysmngr.Uci.{Uci}
use sysmngr.Memory.Params.{Action}
use sysmngr.DataModel.{DmLib}
use sysmngr.Configs.{Section, dmmap_synchronize_vcf_inst}

-- `handle_instance` is libbbfdm's, which gives a section its instance; `stops` says where DM_LINK_INST_OBJ gives
-- DM_STOP, and that instance is linked before.
abbrev pub link_sections :
    (handle_instance : Section → Text) (stops : Text → Bool) → List Section → List (Text × Section)
link_sections handle_instance stops [] = []
link_sections handle_instance stops (s ∷ rest) =
    let inst = handle_instance s in
    let more = link_sections handle_instance stops rest in
    if stops inst then (inst, s) ∷ [] else (inst, s) ∷ more

-- The sections are brought up to date first.
unfoldable pub browse_vcf_inst :
    (handle_instance : Section → Text) (stops : Text → Bool) (config_dir : Text)
    (exists : Text → Bool)
    → List Text
    → List Section
    → List (Text × Section) × List Section
unfolding dmmap_synchronize_vcf_inst
browse_vcf_inst handle_instance stops config_dir exists files sections =
    let synced = dmmap_synchronize_vcf_inst config_dir exists files sections in
    (link_sections handle_instance stops synced, synced)

unfoldable pub get_vcf_name : Section → Text
get_vcf_name s = s.name

unfoldable pub get_vcf_version : Section → Text
get_vcf_version s = s.version

unfoldable pub get_vcf_backup_restore : Section → Text
get_vcf_backup_restore s = s.backup_restore

unfoldable pub get_vcf_desc : Section → Text
get_vcf_desc s = s.description

-- The date of each entry of the directory with the name; `date_of` is stat, gmtime and strftime of a path.
abbrev pub date_from : (date_of : Text → Text) → Text → Text → Text → List Text → Text
date_from date_of config_dir name value [] = value
date_from date_of config_dir name value (f ∷ files) =
    date_from date_of config_dir name
      (if text_eq name f then date_of (snprintf_s 280 (config_dir ++ f)) else value) files

-- none is a directory that cannot be opened.
unfoldable pub get_vcf_date : (date_of : Text → Text) → Text → Option (List Text) → Section → Text
get_vcf_date date_of config_dir none s = codes "0001-01-01T00:00:00Z"
get_vcf_date date_of config_dir (some files) s =
    date_from date_of config_dir s.name (codes "0001-01-01T00:00:00Z") files

module _ (u : Uci) (d : DmLib u) where
  unfoldable pub get_vcf_alias : Text → d.Dmmap → ℤ × Text
  get_vcf_alias instance_name s = d.get_alias s (codes "vcf_alias") instance_name

  unfoldable pub set_vcf_alias : Action → Text → Text → d.Dmmap → ℕ × d.Dmmap
  set_vcf_alias action instance_name value s =
      d.set_alias action (codes "vcf_alias") instance_name value s

  unfoldable pub get_number_of_entries :
      (handle_instance : Section → Text) (config_dir : Text) (exists : Text → Bool)
      → List Text
      → List Section
      → Text
  unfolding browse_vcf_inst
  get_number_of_entries handle_instance config_dir exists files sections = decimal (
      d.number_of_entries (
        map (λ i. i.0)
          (browse_vcf_inst handle_instance (λ inst. false) config_dir exists files sections).0))

-- The inputs of the two commands.
abbrev pub vendor_config_file_backup_args : List Text
vendor_config_file_backup_args = codes "URL" ∷ codes "Username" ∷ codes "Password" ∷ []

abbrev pub vendor_config_file_restore_args : List Text
vendor_config_file_restore_args =
    codes "URL"
    ∷ codes "Username"
    ∷ codes "Password"
    ∷ codes "FileSize"
    ∷ codes "TargetFileName"
    ∷ codes "CheckSumAlgorithm"
    ∷ codes "CheckSum"
    ∷ []
