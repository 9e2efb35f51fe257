-- ===== src/DataModel.antt =====
-- What the parameters of Device.DeviceInfo use of libbbfdm to be read, and the ways of reading an option that
-- src/memory.c and src/processes.c have in common. A getter gives its result and the value, which is empty before.
pub mod Reads
pub mod Schema
pub mod Tables
pub mod Sanity
use sysmngr.Prelude.{ℕ, ◌≡◌, Option, some, List, [], if◌then◌else◌, codes, is_empty, Text}
use sysmngr.Prelude.Int.{ℤ, pos}
use sysmngr.Libc.{strtol}
use sysmngr.Uci.{Uci, Key, key_eq}
use sysmngr.Memory.Params.{Action, Params, file_uri}

pub record DmLib (u : Uci) : Type 1 where
  -- dmuci_get_option_value_string: the whole text, empty if the option is not there.
  pub read : u.Config → Key → Text
  -- dmuci_get_option_value_fallback_def.
  pub read_or : u.Config → Key → Text → Text
  -- dm_time_utc_format.
  pub time_utc_format : ℤ → ℤ × Text
  -- _bbfdm_get_references: the object path, the name of the key and its value.
  pub get_references : Text → Text → Text → Text
  -- get_number_of_entries of the instances that the browse function links.
  pub number_of_entries : List Text → ℕ
  -- bbf_get_alias and bbf_set_alias on what dmmap keeps of the object: the option and the instance.
  pub Dmmap : Type 0
  pub get_alias : Dmmap → Text → Text → ℤ × Text
  pub set_alias : Action → Text → Text → Text → Dmmap → ℕ × Dmmap

-- An option reads as it was set, and the default stands for an empty text.
pub record DmLaws (u : Uci) (d : DmLib u) : Type 0 where
  pub read-set :
      (c : u.Config) (k j : Key) (v : Text)
      → d.read (u.set c k v) j ≡ (if key_eq k j then v else d.read c j)
  pub read-add : (c : u.Config) (p s t : Text) (j : Key) → d.read (u.add c p s t) j ≡ d.read c j
  pub read_or_lem :
      (c : u.Config) (k : Key) (v : Text)
      → d.read_or c k v ≡ (if is_empty (d.read c k) then v else d.read c k)

-- none: a division by zero.
abbrev pub Reading : Type 0
Reading = Option (ℤ × Text)

abbrev pub ok : Text → Reading
ok value = some (pos 0, value)

-- `key` is the key of an option in the section that the getters belong to.
module _ (u : Uci) (d : DmLib u) (key : Text → Key) where
  abbrev pub option_or : Text → Text → Params u → Reading
  option_or option fallback s = ok (d.read_or s.config (key option) fallback)

  abbrev pub time_stamp : Text → Params u → Reading
  time_stamp option s = some (d.time_utc_format (strtol (d.read s.config (key option))))

  abbrev pub log_reference : Text → Text → Params u → Reading
  log_reference option fallback s =
      let file_path = d.read_or s.config (key option) fallback in
      ok (
        if s.existing file_path
        then d.get_references (codes "Device.DeviceInfo.VendorLogFile.") (codes "Name")
            (file_uri file_path)
        else [])
