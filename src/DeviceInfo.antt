-- ===== src/DeviceInfo.antt =====
-- src/deviceinfo.c: the parameters of Device.DeviceInfo and their setters.
-- `lib` has the reads of libbbfdm, its validators and the database of the device.
use sysmngr.Prelude.{ℕ, ◌≡◌, refl, Bool, ◌&&◌, not, if◌then◌else◌, codes, is_empty}
use sysmngr.Prelude.Strings.{Text}
use sysmngr.Uci.{Uci, Key, key_eq}
use sysmngr.Memory.Params.{Action, valuecheck, valueset}

record DeviceLib (u : Uci) : Type 0 where
  -- dmuci_get_option_value_string: the whole text, empty if the option is not there.
  pub read : u.Config → Key → Text
  -- dmuci_get_option_value_fallback_def.
  pub read_or : u.Config → Key → Text → Text
  -- get_uptime.
  pub get_uptime : Text
  -- db_get_value_string of the section deviceinfo of the package device.
  pub db : Text → Text
  -- dm_read_sysfs_file into a buffer of the size, empty if it fails.
  pub read_sysfs : Text → ℕ → Text
  -- true if the value is accepted; the number is the greatest length.
  pub validate_string : ℕ → Text → Bool
  pub validate_boolean : Text → Bool
  pub string_to_bool : Text → Bool
  pub dmuci_string_to_boolean : Text → Bool
  pub fault_9007 : ℕ

abbrev cpe_key : Text → Key
cpe_key option = (codes "cwmp", codes "cpe", option)

abbrev discovery_key : Key
discovery_key = (codes "cwmp", codes "acs", codes "dhcp_discovery")

abbrev hostname_key : Key
hostname_key = (codes "system", codes "@system[0]", codes "hostname")

abbrev keep_config_key : Key
keep_config_key = (codes "sysmngr", codes "globals", codes "keep_config")

module _ (u : Uci) (lib : DeviceLib u) where
  -- The parameters that the database of the device has.
  unfoldable get_device_devicecategory : Text
  get_device_devicecategory = lib.db (codes "DeviceCategory")

  unfoldable get_device_hardwareversion : Text
  get_device_hardwareversion = lib.db (codes "HardwareVersion")

  unfoldable get_device_additionalhardwareversion : Text
  get_device_additionalhardwareversion = lib.db (codes "AdditionalHardwareVersion")

  unfoldable get_device_additionalsoftwareversion : Text
  get_device_additionalsoftwareversion = lib.db (codes "AdditionalSoftwareVersion")

  unfoldable get_deviceinfo_cid : Text
  get_deviceinfo_cid = lib.db (codes "CID")

  unfoldable get_deviceinfo_friendlyname : Text
  get_deviceinfo_friendlyname = lib.db (codes "FriendlyName")

  unfoldable get_deviceinfo_pen : Text
  get_deviceinfo_pen = lib.db (codes "PEN")

  unfoldable get_deviceinfo_modelnumber : Text
  get_deviceinfo_modelnumber = lib.db (codes "ModelNumber")

  unfoldable get_deviceinfo_base_mac_addr : Text
  get_deviceinfo_base_mac_addr = lib.db (codes "BaseMACAddress")

  unfoldable get_device_info_uptime : Text
  get_device_info_uptime = lib.get_uptime

  unfoldable get_device_info_firstusedate : u.Config → Text
  get_device_info_firstusedate c = lib.read c (codes "time", codes "global", codes "first_use_date")

  -- The database answers where the configuration has nothing.
  abbrev own_or : Text → Text → Text
  own_or own name = if is_empty own then lib.db name else own

  unfoldable get_device_manufacturer : u.Config → Text
  get_device_manufacturer c =
      own_or (lib.read c (cpe_key (codes "manufacturer"))) (codes "Manufacturer")

  unfoldable get_device_manufactureroui : u.Config → Text
  get_device_manufactureroui c =
      own_or (lib.read c (cpe_key (codes "manufacturer_oui"))) (codes "ManufacturerOUI")

  unfoldable get_device_modelname : u.Config → Text
  get_device_modelname c = own_or (lib.read c (cpe_key (codes "model_name"))) (codes "ModelName")

  unfoldable get_device_description : u.Config → Text
  get_device_description c =
      own_or (lib.read c (cpe_key (codes "description"))) (codes "Description")

  unfoldable get_device_productclass : u.Config → Text
  get_device_productclass c =
      own_or (lib.read c (cpe_key (codes "product_class"))) (codes "ProductClass")

  unfoldable get_device_serialnumber : u.Config → Text
  get_device_serialnumber c =
      own_or (lib.read c (cpe_key (codes "serial_number"))) (codes "SerialNumber")

  unfoldable get_device_softwareversion : u.Config → Text
  get_device_softwareversion c =
      own_or (lib.read c (cpe_key (codes "software_version"))) (codes "SoftwareVersion")

  unfoldable get_device_provisioningcode : u.Config → Text
  get_device_provisioningcode c =
      let dhcp_provisioning_code = lib.read c (cpe_key (codes "dhcp_provisioning_code")) in
      if lib.dmuci_string_to_boolean (lib.read c discovery_key)
        && not (is_empty dhcp_provisioning_code)
      then dhcp_provisioning_code
      else lib.read c (cpe_key (codes "provisioning_code"))

  unfoldable set_device_provisioningcode : Action → Text → u.Config → ℕ × u.Config
  set_device_provisioningcode valuecheck value c =
      (if lib.validate_string 64 value then 0 else lib.fault_9007, c)
  set_device_provisioningcode valueset value c =
      (0, u.set c (cpe_key (codes "provisioning_code")) value)

  unfoldable get_host_name : u.Config → Text
  get_host_name c = lib.read c hostname_key

  unfoldable set_host_name : Action → Text → u.Config → ℕ × u.Config
  set_host_name valuecheck value c =
      (if lib.validate_string 255 value then 0 else lib.fault_9007, c)
  set_host_name valueset value c = (0, u.set c hostname_key value)

  unfoldable get_deviceinfo_keep_config : u.Config → Text
  get_deviceinfo_keep_config c = lib.read_or c keep_config_key (codes "1")

  unfoldable set_deviceinfo_keep_config : Action → Text → u.Config → ℕ × u.Config
  set_deviceinfo_keep_config valuecheck value c =
      (if lib.validate_boolean value then 0 else lib.fault_9007, c)
  set_deviceinfo_keep_config valueset value c =
      (0, u.set c keep_config_key (if lib.string_to_bool value then codes "1" else codes "0"))

  abbrev or_minus_one : Text → Text
  or_minus_one val = if is_empty val then codes "-1" else val

  unfoldable get_file_descriptors_used : Text
  get_file_descriptors_used = or_minus_one (lib.read_sysfs (codes "/proc/sys/fs/file-nr") 32)

  unfoldable get_file_descriptors_max_allowed : Text
  get_file_descriptors_max_allowed =
      or_minus_one (lib.read_sysfs (codes "/proc/sys/fs/file-max") 32)

  -- If an option reads as it was set and no other changes, then a provisioning code that is set is read back, unless
  -- discovery is on and there is a code from DHCP.
  provisioningcode-roundtrip :
      ((c : u.Config) (k j : Key) (v : Text)
        → lib.read (u.set c k v) j ≡ (if key_eq k j then v else lib.read c j))
      → (value : Text) (c : u.Config)
      → get_device_provisioningcode (set_device_provisioningcode valueset value c).1 ≡ (
          let dhcp = lib.read c (cpe_key (codes "dhcp_provisioning_code")) in
          if lib.dmuci_string_to_boolean (lib.read c discovery_key) && not (is_empty dhcp)
          then dhcp
          else value)
  unfolding get_device_provisioningcode set_device_provisioningcode
  provisioningcode-roundtrip read-set value c =
      rw
        (
          read-set c (cpe_key (codes "provisioning_code"))
              (cpe_key (codes "dhcp_provisioning_code")) value,
          read-set c (cpe_key (codes "provisioning_code")) discovery_key value,
          read-set c (cpe_key (codes "provisioning_code")) (cpe_key (codes "provisioning_code"))
              value,
        )
        refl
