-- ===== src/DataModel/Tables.antt =====
-- The tables of the data model below Device.DeviceInfo, file by file, with the macros that leave rows out. The prefix of
-- the vendor's names is the one of the Makefile.
pub mod Status
pub mod Images
pub mod Device
use sysmngr.Prelude.{Bool}

-- SYSMNGR_VENDOR_CONFIG_FILE and so on.
pub record Macros : Type 0 where
  pub vendor_config_file : Bool
  pub memory_status : Bool
  pub process_status : Bool
  pub network_properties : Bool
  pub supported_data_model : Bool
  pub firmware_image : Bool
  pub reboots : Bool
  pub temperature_status : Bool
  pub vendor_extensions : Bool
