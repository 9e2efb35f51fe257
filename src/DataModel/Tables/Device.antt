-- ===== src/DataModel/Tables/Device.antt =====
-- The tables of src/deviceinfo.c.
use sysmngr.Prelude.{Bool, true, none, some, List, [], ◌∷◌}
use sysmngr.DataModel.Schema.{
  Leaf, Objects, nil, cons, obj, row, when, dmread, dmwrite, string, unint, int, bool, time, both,
  usp, cwmp, reference,
}
use sysmngr.DataModel.Tables.{Macros}
use sysmngr.DataModel.Tables.Status.{
  device_info_temperature_status_obj, device_info_temperature_status_params,
  device_info_memory_status_obj, device_info_memory_status_params, device_info_process_status_obj,
  device_info_process_status_params, device_info_reboots_obj, device_info_reboots_params,
}
use sysmngr.DataModel.Tables.Images.{
  device_info_vendor_config_file_params, device_info_supported_data_model_params,
  device_info_network_properties_params, device_info_firmware_image_params,
}

-- tDeviceInfoFileDescriptorsParams
abbrev pub device_info_file_descriptors_params : List (Bool × Leaf)
device_info_file_descriptors_params =
    row "Used" dmread int (some "get_DeviceInfoFileDescriptors_Used") none both []
    ∷ row "MaxAllowed" dmread int (some "get_DeviceInfoFileDescriptors_MaxAllowed") none both []
    ∷ []

-- tDeviceInfoObj
abbrev pub device_info_obj : Macros → Objects
device_info_obj m =
    cons m.vendor_config_file
      (obj "VendorConfigFile" none (some "browseVcfInst") nil device_info_vendor_config_file_params
        both)
      (cons m.memory_status
        (obj "MemoryStatus" none none device_info_memory_status_obj device_info_memory_status_params
          both)
        (cons m.process_status
          (obj "ProcessStatus" none none device_info_process_status_obj
            device_info_process_status_params both)
          (cons m.network_properties
            (obj "NetworkProperties" none none nil (device_info_network_properties_params m) both)
            (cons m.supported_data_model
              (obj "SupportedDataModel" none (some "browseDeviceInfoSupportedDataModelInst") nil
                device_info_supported_data_model_params cwmp)
              (cons m.firmware_image
                (obj "FirmwareImage" (some "file:/usr/libexec/rpcd/fwbank")
                  (some "browseDeviceInfoFirmwareImageInst") nil device_info_firmware_image_params
                  both)
                (cons m.reboots
                  (obj "Reboots" none none device_info_reboots_obj device_info_reboots_params usp)
                  (cons m.temperature_status
                    (obj "TemperatureStatus" (some "file:/etc/sysmngr/temperature.sh") none
                      device_info_temperature_status_obj device_info_temperature_status_params both)
                    (cons m.vendor_extensions
                      (obj "X_IOWRT_EU_FileDescriptors" none none nil
                        device_info_file_descriptors_params both)
                      nil))))))))

-- tDeviceInfoParams
abbrev pub device_info_params : Macros → List (Bool × Leaf)
device_info_params m =
    row "DeviceCategory" dmread string (some "get_device_devicecategory") none both []
    ∷ row "Manufacturer" dmread string (some "get_device_manufacturer") none both []
    ∷ row "ManufacturerOUI" dmread string (some "get_device_manufactureroui") none both []
    ∷ row "ModelName" dmread string (some "get_device_modelname") none both []
    ∷ row "Description" dmread string (some "get_device_description") none both []
    ∷ row "ProductClass" dmread string (some "get_device_productclass") none both []
    ∷ row "SerialNumber" dmread string (some "get_device_serialnumber") none both []
    ∷ row "HardwareVersion" dmread string (some "get_device_hardwareversion") none both []
    ∷ row "SoftwareVersion" dmread string (some "get_device_softwareversion") none both []
    ∷ row "AdditionalHardwareVersion" dmread string (some "get_device_additionalhardwareversion")
        none both []
    ∷ row "AdditionalSoftwareVersion" dmread string (some "get_device_additionalsoftwareversion")
        none both []
    ∷ row "ProvisioningCode" dmwrite string (some "get_device_provisioningcode")
        (some "set_device_provisioningcode") both []
    ∷ row "UpTime" dmread unint (some "get_device_info_uptime") none both []
    ∷ row "FirstUseDate" dmread time (some "get_device_info_firstusedate") none both []
    ∷ row "CID" dmread string (some "get_deviceinfo_cid") none usp []
    ∷ row "FriendlyName" dmread string (some "get_deviceinfo_friendlyname") none usp []
    ∷ row "PEN" dmread string (some "get_deviceinfo_pen") none usp []
    ∷ row "ModelNumber" dmread string (some "get_deviceinfo_modelnumber") none both []
    ∷ row "HostName" dmwrite string (some "get_DeviceInfo_HostName")
        (some "set_DeviceInfo_HostName") both []
    ∷ when m.vendor_config_file (
        row "VendorConfigFileNumberOfEntries" dmread unint
          (some "get_DeviceInfo_VendorConfigFileNumberOfEntries") none both [])
    ∷ when m.supported_data_model (
        row "SupportedDataModelNumberOfEntries" dmread unint
          (some "get_DeviceInfo_SupportedDataModelNumberOfEntries") none cwmp [])
    ∷ when m.firmware_image (
        row "ActiveFirmwareImage" dmread string (some "get_device_active_fwimage") none both
          (reference ∷ []))
    ∷ when m.firmware_image (
        row "BootFirmwareImage" dmwrite string (some "get_device_boot_fwimage")
          (some "set_device_boot_fwimage") both (reference ∷ []))
    ∷ when m.firmware_image (
        row "MaxNumberOfActivateTimeWindows" dmread unint
          (some "get_DeviceInfo_MaxNumberOfActivateTimeWindows") none usp [])
    ∷ when m.firmware_image (
        row "FirmwareImageNumberOfEntries" dmread unint
          (some "get_DeviceInfo_FirmwareImageNumberOfEntries") none both [])
    ∷ when m.vendor_extensions (
        row "X_IOWRT_EU_BaseMACAddress" dmread string (some "get_deviceinfo_base_mac_addr") none
          both [])
    ∷ when m.vendor_extensions (
        row "X_IOWRT_EU_KeepConfig" dmwrite bool (some "get_deviceinfo_keep_config")
          (some "set_deviceinfo_keep_config") both [])
    ∷ []

-- tDMDeviceInfoObj
abbrev pub dm_device_info_obj : Macros → Objects
dm_device_info_obj m =
    cons true (obj "DeviceInfo" none none (device_info_obj m) (device_info_params m) both) nil
