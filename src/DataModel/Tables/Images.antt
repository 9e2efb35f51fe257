-- ===== src/DataModel/Tables/Images.antt =====
-- The tables of src/configs.c, src/supported_dm.c, src/fw_images.c, src/network.c.
use sysmngr.Prelude.{Bool, none, some, List, [], ◌∷◌}
use sysmngr.DataModel.Schema.{
  Leaf, row, when, dmread, dmwrite, dmasync, string, unint, int, bool, time, command, both, usp,
  cwmp, unique, linker,
}
use sysmngr.DataModel.Tables.{Macros}

-- tDeviceInfoVendorConfigFileParams
abbrev pub device_info_vendor_config_file_params : List (Bool × Leaf)
device_info_vendor_config_file_params =
    row "Alias" dmwrite string (some "get_vcf_alias") (some "set_vcf_alias") both (unique ∷ [])
    ∷ row "Name" dmread string (some "get_vcf_name") none both (unique ∷ [])
    ∷ row "Version" dmread string (some "get_vcf_version") none both []
    ∷ row "Date" dmread time (some "get_vcf_date") none both []
    ∷ row "Description" dmread string (some "get_vcf_desc") none both []
    ∷ row "UseForBackupRestore" dmread bool (some "get_vcf_backup_restore") none both []
    ∷ row "Backup()" dmasync command (some "get_operate_args_DeviceInfoVendorConfigFile_Backup")
        (some "operate_DeviceInfoVendorConfigFile_Backup") usp []
    ∷ row "Restore()" dmasync command (some "get_operate_args_DeviceInfoVendorConfigFile_Restore")
        (some "operate_DeviceInfoVendorConfigFile_Restore") usp []
    ∷ []

-- tDeviceInfoSupportedDataModelParams
abbrev pub device_info_supported_data_model_params : List (Bool × Leaf)
device_info_supported_data_model_params =
    row "Alias" dmwrite string (some "get_DeviceInfoSupportedDataModel_Alias")
      (some "set_DeviceInfoSupportedDataModel_Alias") cwmp (unique ∷ [])
    ∷ row "URL" dmread string (some "get_DeviceInfoSupportedDataModel_URL") none cwmp (unique ∷ [])
    ∷ row "URN" dmread string (some "get_DeviceInfoSupportedDataModel_URN") none cwmp []
    ∷ row "Features" dmread string (some "get_DeviceInfoSupportedDataModel_Features") none cwmp []
    ∷ []

-- tDeviceInfoNetworkPropertiesParams
abbrev pub device_info_network_properties_params : Macros → List (Bool × Leaf)
device_info_network_properties_params m =
    row "MaxTCPWindowSize" dmread unint (some "get_DeviceInfoNetworkProperties_MaxTCPWindowSize")
      none both []
    ∷ row "TCPImplementation" dmread string
        (some "get_DeviceInfoNetworkProperties_TCPImplementation") none both []
    ∷ when m.vendor_extensions (
        row "X_IOWRT_EU_MaxConnections" dmread int (some "get_Connections_MaxConnections") none both
          [])
    ∷ when m.vendor_extensions (
        row "X_IOWRT_EU_ActiveConnections" dmread int (some "get_Connections_ActiveConnections")
          none both [])
    ∷ []

-- tDeviceInfoFirmwareImageParams
abbrev pub device_info_firmware_image_params : List (Bool × Leaf)
device_info_firmware_image_params =
    row "Alias" dmwrite string (some "get_DeviceInfoFirmwareImage_Alias")
      (some "set_DeviceInfoFirmwareImage_Alias") both (unique ∷ linker ∷ [])
    ∷ row "Name" dmread string (some "get_DeviceInfoFirmwareImage_Name") none both []
    ∷ row "Version" dmread string (some "get_DeviceInfoFirmwareImage_Version") none both []
    ∷ row "Available" dmwrite bool (some "get_DeviceInfoFirmwareImage_Available")
        (some "set_DeviceInfoFirmwareImage_Available") both []
    ∷ row "Status" dmread string (some "get_DeviceInfoFirmwareImage_Status") none both []
    ∷ row "BootFailureLog" dmread string (some "get_empty") none both []
    ∷ row "Download()" dmasync command (some "get_operate_args_DeviceInfoFirmwareImage_Download")
        (some "operate_DeviceInfoFirmwareImage_Download") usp []
    ∷ row "Activate()" dmasync command (some "get_operate_args_DeviceInfoFirmwareImage_Activate")
        (some "operate_DeviceInfoFirmwareImage_Activate") usp []
    ∷ []
