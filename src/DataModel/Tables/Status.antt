-- ===== src/DataModel/Tables/Status.antt =====
-- The tables of src/memory.c, src/processes.c, src/reboots.c, src/temperature.c.
use sysmngr.Prelude.{Bool, true, none, some, List, [], ◌∷◌}
use sysmngr.DataModel.Schema.{
  Leaf, Objects, nil, cons, obj, row, dmread, dmwrite, dmasync, string, unint, int, bool, time,
  command, event, both, usp, unique, linker,
}

-- tTemperatureStatusTemperatureSensorParams
abbrev pub temperature_status_temperature_sensor_params : List (Bool × Leaf)
temperature_status_temperature_sensor_params =
    row "Alias" dmwrite string (some "get_TemperatureSensor_alias")
      (some "set_TemperatureSensor_alias") both (unique ∷ [])
    ∷ row "Name" dmread string (some "get_TemperatureSensor_name") none both (unique ∷ [])
    ∷ row "Value" dmread int (some "get_TemperatureSensor_value") none both []
    ∷ []

-- tDeviceInfoTemperatureStatusObj
abbrev pub device_info_temperature_status_obj : Objects
device_info_temperature_status_obj =
    cons true
      (obj "TemperatureSensor" none (some "browseTemperatureSensor") nil
        temperature_status_temperature_sensor_params both)
      nil

-- tDeviceInfoTemperatureStatusParams
abbrev pub device_info_temperature_status_params : List (Bool × Leaf)
device_info_temperature_status_params =
    row "TemperatureSensorNumberOfEntries" dmread unint (some "get_TemperatureStatus_numentries")
      none both []
    ∷ []

-- tDeviceInfoMemoryStatusMemoryMonitorParams
abbrev pub device_info_memory_status_memory_monitor_params : List (Bool × Leaf)
device_info_memory_status_memory_monitor_params =
    row "Enable" dmwrite bool (some "get_DeviceInfoMemoryStatusMemoryMonitor_Enable")
      (some "set_DeviceInfoMemoryStatusMemoryMonitor_Enable") both []
    ∷ row "MemUtilization" dmread unint
        (some "get_DeviceInfoMemoryStatusMemoryMonitor_MemUtilization") none both []
    ∷ row "PollingInterval" dmwrite unint
        (some "get_DeviceInfoMemoryStatusMemoryMonitor_PollingInterval")
        (some "set_DeviceInfoMemoryStatusMemoryMonitor_PollingInterval") both []
    ∷ row "CriticalRiseThreshold" dmwrite unint
        (some "get_DeviceInfoMemoryStatusMemoryMonitor_CriticalRiseThreshold")
        (some "set_DeviceInfoMemoryStatusMemoryMonitor_CriticalRiseThreshold") both []
    ∷ row "CriticalFallThreshold" dmwrite unint
        (some "get_DeviceInfoMemoryStatusMemoryMonitor_CriticalFallThreshold")
        (some "set_DeviceInfoMemoryStatusMemoryMonitor_CriticalFallThreshold") both []
    ∷ row "CriticalRiseTimeStamp" dmread time
        (some "get_DeviceInfoMemoryStatusMemoryMonitor_CriticalRiseTimeStamp") none both []
    ∷ row "CriticalFallTimeStamp" dmread time
        (some "get_DeviceInfoMemoryStatusMemoryMonitor_CriticalFallTimeStamp") none both []
    ∷ row "EnableCriticalLog" dmwrite bool
        (some "get_DeviceInfoMemoryStatusMemoryMonitor_EnableCriticalLog")
        (some "set_DeviceInfoMemoryStatusMemoryMonitor_EnableCriticalLog") both []
    ∷ row "VendorLogFileRef" dmread string
        (some "get_DeviceInfoMemoryStatusMemoryMonitor_VendorLogFileRef") none both []
    ∷ row "FilePath" dmwrite string (some "get_DeviceInfoMemoryStatusMemoryMonitor_FilePath")
        (some "set_DeviceInfoMemoryStatusMemoryMonitor_FilePath") both []
    ∷ row "MemoryCriticalState!" dmread event (some "get_event_MemoryCriticalState") none usp []
    ∷ []

-- tDeviceInfoMemoryStatusObj
abbrev pub device_info_memory_status_obj : Objects
device_info_memory_status_obj =
    cons true
      (obj "MemoryMonitor" none none nil device_info_memory_status_memory_monitor_params both) nil

-- tDeviceInfoMemoryStatusParams
abbrev pub device_info_memory_status_params : List (Bool × Leaf)
device_info_memory_status_params =
    row "Total" dmread unint (some "get_memory_status_total") none both []
    ∷ row "Free" dmread unint (some "get_memory_status_free") none both []
    ∷ row "TotalPersistent" dmread unint (some "get_memory_status_total_persistent") none both []
    ∷ row "FreePersistent" dmread unint (some "get_memory_status_free_persistent") none both []
    ∷ []

-- tDeviceInfoProcessStatusProcessParams
abbrev pub device_info_process_status_process_params : List (Bool × Leaf)
device_info_process_status_process_params =
    row "PID" dmread unint (some "get_process_pid") none both (unique ∷ [])
    ∷ row "Command" dmread string (some "get_process_command") none both []
    ∷ row "Size" dmread unint (some "get_process_size") none both []
    ∷ row "Priority" dmread unint (some "get_process_priority") none both []
    ∷ row "CPUTime" dmread unint (some "get_process_cpu_time") none both []
    ∷ row "State" dmread string (some "get_process_state") none both []
    ∷ []

-- tDeviceInfoProcessStatusCPUParams
abbrev pub device_info_process_status_cpu_params : List (Bool × Leaf)
device_info_process_status_cpu_params =
    row "Alias" dmwrite string (some "get_DeviceInfoProcessStatusCPU_Alias")
      (some "set_DeviceInfoProcessStatusCPU_Alias") both []
    ∷ row "Name" dmread string (some "get_DeviceInfoProcessStatusCPU_Name") none both
        (unique ∷ linker ∷ [])
    ∷ row "Enable" dmwrite bool (some "get_DeviceInfoProcessStatusCPU_Enable")
        (some "set_DeviceInfoProcessStatusCPU_Enable") both []
    ∷ row "UpTime" dmread unint (some "get_DeviceInfoProcessStatusCPU_UpTime") none both []
    ∷ row "UserModeUtilization" dmread unint
        (some "get_DeviceInfoProcessStatusCPU_UserModeUtilization") none both []
    ∷ row "SystemModeUtilization" dmread unint
        (some "get_DeviceInfoProcessStatusCPU_SystemModeUtilization") none both []
    ∷ row "IdleModeUtilization" dmread unint
        (some "get_DeviceInfoProcessStatusCPU_IdleModeUtilization") none both []
    ∷ row "CPUUtilization" dmread unint (some "get_DeviceInfoProcessStatusCPU_CPUUtilization") none
        both []
    ∷ row "PollInterval" dmwrite unint (some "get_DeviceInfoProcessStatusCPU_PollInterval")
        (some "set_DeviceInfoProcessStatusCPU_PollInterval") both []
    ∷ row "NumSamples" dmwrite unint (some "get_DeviceInfoProcessStatusCPU_NumSamples")
        (some "set_DeviceInfoProcessStatusCPU_NumSamples") both []
    ∷ row "CriticalRiseThreshold" dmwrite unint
        (some "get_DeviceInfoProcessStatusCPU_CriticalRiseThreshold")
        (some "set_DeviceInfoProcessStatusCPU_CriticalRiseThreshold") both []
    ∷ row "CriticalFallThreshold" dmwrite unint
        (some "get_DeviceInfoProcessStatusCPU_CriticalFallThreshold")
        (some "set_DeviceInfoProcessStatusCPU_CriticalFallThreshold") both []
    ∷ row "CriticalRiseTimeStamp" dmread time
        (some "get_DeviceInfoProcessStatusCPU_CriticalRiseTimeStamp") none both []
    ∷ row "CriticalFallTimeStamp" dmread time
        (some "get_DeviceInfoProcessStatusCPU_CriticalFallTimeStamp") none both []
    ∷ row "EnableCriticalLog" dmwrite bool (some "get_DeviceInfoProcessStatusCPU_EnableCriticalLog")
        (some "set_DeviceInfoProcessStatusCPU_EnableCriticalLog") both []
    ∷ row "VendorLogFileRef" dmread string (some "get_DeviceInfoProcessStatusCPU_VendorLogFileRef")
        none both []
    ∷ row "FilePath" dmwrite string (some "get_DeviceInfoProcessStatusCPU_FilePath")
        (some "set_DeviceInfoProcessStatusCPU_FilePath") both []
    ∷ row "CPUCriticalState!" dmread event (some "get_event_CPUCriticalState") none usp []
    ∷ []

-- tDeviceInfoProcessStatusObj
abbrev pub device_info_process_status_obj : Objects
device_info_process_status_obj =
    cons true
      (obj "Process" none (some "browseProcessEntriesInst") nil
        device_info_process_status_process_params both)
      (cons true
        (obj "CPU" none (some "browseDeviceInfoProcessStatusCPUInst") nil
          device_info_process_status_cpu_params both)
        nil)

-- tDeviceInfoProcessStatusParams
abbrev pub device_info_process_status_params : List (Bool × Leaf)
device_info_process_status_params =
    row "CPUUsage" dmread unint (some "get_process_cpu_usage") none both []
    ∷ row "ProcessNumberOfEntries" dmread unint (some "get_process_number_of_entries") none both []
    ∷ row "CPUNumberOfEntries" dmread unint (some "get_DeviceInfoProcessStatus_CPUNumberOfEntries")
        none both []
    ∷ []

-- tDeviceInfoRebootsRebootParams
abbrev pub device_info_reboots_reboot_params : List (Bool × Leaf)
device_info_reboots_reboot_params =
    row "Alias" dmwrite string (some "get_DeviceInfoRebootsReboot_Alias")
      (some "set_DeviceInfoRebootsReboot_Alias") usp (unique ∷ [])
    ∷ row "TimeStamp" dmread time (some "get_DeviceInfoRebootsReboot_TimeStamp") none usp
        (unique ∷ [])
    ∷ row "FirmwareUpdated" dmread bool (some "get_DeviceInfoRebootsReboot_FirmwareUpdated") none
        usp []
    ∷ row "Cause" dmread string (some "get_DeviceInfoRebootsReboot_Cause") none usp []
    ∷ row "Reason" dmread string (some "get_DeviceInfoRebootsReboot_Reason") none usp []
    ∷ row "Remove()" dmasync command none (some "operate_DeviceInfoRebootsReboot_Remove") usp []
    ∷ []

-- tDeviceInfoRebootsObj
abbrev pub device_info_reboots_obj : Objects
device_info_reboots_obj =
    cons true
      (obj "Reboot" none (some "browseDeviceInfoRebootsRebootInst") nil
        device_info_reboots_reboot_params usp)
      nil

-- tDeviceInfoRebootsParams
abbrev pub device_info_reboots_params : List (Bool × Leaf)
device_info_reboots_params =
    row "BootCount" dmread unint (some "get_DeviceInfoReboots_BootCount") none usp []
    ∷ row "CurrentVersionBootCount" dmread unint
        (some "get_DeviceInfoReboots_CurrentVersionBootCount") none usp []
    ∷ row "WatchdogBootCount" dmread unint (some "get_DeviceInfoReboots_WatchdogBootCount") none usp
        []
    ∷ row "ColdBootCount" dmread unint (some "get_DeviceInfoReboots_ColdBootCount") none usp []
    ∷ row "WarmBootCount" dmread unint (some "get_DeviceInfoReboots_WarmBootCount") none usp []
    ∷ row "MaxRebootEntries" dmwrite int (some "get_DeviceInfoReboots_MaxRebootEntries")
        (some "set_DeviceInfoReboots_MaxRebootEntries") usp []
    ∷ row "RebootNumberOfEntries" dmread unint (some "get_DeviceInfoReboots_RebootNumberOfEntries")
        none usp []
    ∷ row "RemoveAllReboots()" dmasync command none
        (some "operate_DeviceInfoReboots_RemoveAllReboots") usp []
    ∷ []
