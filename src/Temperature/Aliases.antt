-- ===== src/Temperature/Aliases.antt =====
-- The aliases of the sensors as they are read back.
use sysmngr.Prelude.{◌≡◌, List, if◌then◌else◌, text_eq}
use sysmngr.Prelude.Strings.{Text}
use sysmngr.Memory.Params.{valueset}
use sysmngr.Dmmap.{Section, or_cpe, or_cpe-put_alias}
use sysmngr.Temperature.{TemperatureLib, get_alias, set_alias}

module _ (lib : TemperatureLib) where
  -- After an alias is set, the sensor it is set for reads as the value, or as "cpe-" and its instance if the value
  -- is empty, and every other sensor reads as before.
  pub get_alias-set_alias :
      (written read value : Text) (sections : List Section)
      → get_alias lib read (set_alias lib valueset written value sections).1
        ≡ (if text_eq written read then or_cpe read value else get_alias lib read sections)
  unfolding get_alias set_alias
  get_alias-set_alias written read value sections = or_cpe-put_alias written read value sections
