-- ===== src/Temperature.antt =====
-- src/temperature.c: the sensors that the script reports, and their aliases in the sections temperature of dmmap,
-- by the lists of Dmmap.
-- `lib` has run_cmd, json-c and the validator of libbbfdm.
pub mod Aliases
use sysmngr.Prelude.{
  ℕ, ◌+◌, Bool, true, false, Option, none, some, ◌>>=◌, List, [], ◌∷◌, ◌++◌, if◌then◌else◌, codes,
  map, text_eq, is_empty,
}
use sysmngr.Prelude.Strings.{Text}
use sysmngr.Libc.{decimal}
use sysmngr.Memory.Params.{Action, valuecheck, valueset}
use sysmngr.Dmmap.{Section, find_alias, or_cpe, put_alias}

pub record TemperatureLib : Type 1 where
  pub Json : Type 0
  -- What the script prints into the buffer of 1024 bytes, none if run_cmd does not return 0.
  pub status_output : Option Text
  pub remove_new_line : Text → Text
  pub parse : Text → Option Json
  -- The objects of the array "status".
  pub status_of : Json → List Json
  -- dmjson_get_value of a name in an object.
  pub get_value : Json → Text → Text
  -- get_number_of_entries of the instances that the browse function links.
  pub number_of_entries : List Text → ℕ
  -- true if the alias is accepted.
  pub validate_alias : Text → Bool
  pub fault_9007 : ℕ

module _ (lib : TemperatureLib) where
  unfoldable pub get_temperature_status : Option lib.Json
  get_temperature_status = lib.status_output >>= λ res.
      if is_empty res then none else lib.parse (lib.remove_new_line res)

  -- The instance numbers go up from `id` + 1.
  abbrev pub link_from : (Text → Bool) → ℕ → List lib.Json → List (Text × lib.Json)
  link_from stops id [] = []
  link_from stops id (tobj ∷ rest) =
      let inst = decimal (id + 1) in
      let more = link_from stops (id + 1) rest in
      if stops inst then (inst, tobj) ∷ [] else (inst, tobj) ∷ more

  abbrev pub link_status : (Text → Bool) → Option lib.Json → List (Text × lib.Json)
  link_status stops none = []
  link_status stops (some temp_status) = link_from stops 0 (lib.status_of temp_status)

  -- `stops` says where DM_LINK_INST_OBJ gives DM_STOP; that instance is linked before.
  unfoldable pub browse_temperature_sensor : (Text → Bool) → List (Text × lib.Json)
  unfolding get_temperature_status
  browse_temperature_sensor stops = link_status stops get_temperature_status

  unfoldable pub get_alias : Text → List Section → Text
  get_alias instance_name sections = or_cpe instance_name (find_alias instance_name sections)

  unfoldable pub set_alias : Action → Text → Text → List Section → ℕ × List Section
  set_alias valuecheck instance_name value sections =
      (if lib.validate_alias value then 0 else lib.fault_9007, sections)
  set_alias valueset instance_name value sections = (0, put_alias instance_name value sections)

  unfoldable pub get_name : lib.Json → Text
  get_name obj = lib.get_value obj (codes "name")

  unfoldable pub get_value : lib.Json → Text
  get_value obj = lib.get_value obj (codes "temperature")

  unfoldable pub get_numentries : Text
  unfolding browse_temperature_sensor
  get_numentries =
      decimal (lib.number_of_entries (map (λ i. i.0) (browse_temperature_sensor (λ inst. false))))
