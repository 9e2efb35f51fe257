-- ===== src/Lib.antt =====
-- sysmngr, the system management daemon: a verification library for src/*.c.
--
-- The daemon is one uloop: timers, ubus calls and events, and the ends of forked tasks run one after the
-- other and change the globals of each file. It keeps its configuration in UCI. The parts of it that
-- are modelled, and the files here:
--
-- * src/reboots.c, Reboots: `State` is UCI, the lock file, g_retry_count and reboot_timer. `Boot` is what
--   a run reads. sysmngr_reboots_init waits for the reset reason by at most REBOOT_MAX_RETRIES timers and
--   runs sysmngr_register_boot_action, which is count_boot and then record_boot. Reboots/Params has
--   the setter and the commands of the data model, Reboots/Values the entries and the getters. The other
--   modules below Reboots hold the proofs.
-- * src/memory.c and the CPU monitor of src/processes.c, Memory, Stat and Cpu: the context structs are records,
--   a poll is a record of what is read then, and run_memory_monitor and run_cpu_monitor take a poll
--   to the next context, none at a division by zero or a write outside an array. The check of the two
--   thresholds stands in both files alike and is modelled once, in Critical. Memory/Params and
--   Cpu/Params have the setters of the data model, Memory/Values and Cpu/Values the getters;
--   Cpu/Independence, Memory/Independence and Memory/Applied hold the proofs on both. Cpu/Window holds what
--   a ring of samples is, Cpu/Monitor and Memory/Monitor series of polls.
-- * src/utils.c, Utils: the checks on a download, the uptime, the critical log, the transfer message.
-- * src/fwbank.c, Fwbank: `Fwbank` is g_fwbank_dump, g_retry_count, g_fwbank_event_data, the tasks that
--   run and what was sent. Fwbank/Tasks has the finish callbacks, Fwbank/Ubus the event and the calls, and
--   Fwbank/Daemon makes of them a step for each event of uloop. Of the two build options the path without
--   SYSMNGR_FWBANK_UBUS_SUPPORT is taken. Fwbank/Sysupgrade and the modules below Fwbank/Daemon hold the
--   proofs.
-- * src/fw_images.c, FwImages: `Images` is UCI, the sections of dmmap_fw_image and the bank part below. The
--   module itself has the attributes, the availability and the choice of the boot bank; FwImages/Download the
--   download, where `World` is what the server and the other daemons answer and the acts are what leaves the
--   program, in order; FwImages/Activate the time windows and the crontab; FwImages/Reboot the reboot task;
--   FwImages/Values the instances, the getters and the references to the banks in use. FwImages/Banks,
--   FwImages/Reference and the modules below the two hold the proofs.
-- * The process list of src/processes.c, Procps and Processes: Procps reads one entry of /proc, Processes has the
--   list, the events on its length, the timer and the call of tr069. `Proc` is what a refresh finds.
--   Processes/Values has the getters.
-- * src/configs.c, Configs: the sections of dmmap, and the backup and the restore with their acts. Configs/Values has
--   the instances and the getters.
-- * src/network.c, Network: the TCP window and the list of congestion controls, printed into its buffer.
-- * src/temperature.c, Temperature: the sensors that the script reports, and their aliases in dmmap.
-- * src/supported_dm.c, SupportedDm: the fixed table, its instances and their aliases. Dmmap has the lists of aliases
--   that this file and src/temperature.c keep by the same code.
-- * src/deviceinfo.c, DeviceInfo: the parameters of the device itself and their setters.
-- * The tables DMLEAF and DMOBJ of all files, DataModel: DataModel/Schema has the rows, where functions stand by their
--   names, DataModel/Tables the tables with the macros of the build as `Macros`, and DataModel/Sanity what holds of
--   them together. DataModel itself is the interface `DmLib` of libbbfdm that the getters use.
-- * src/sysmngr.c, Main: `Daemon` puts the states of the parts together, which share one UCI configuration, and
--   main, config_reload_cb and the end call the parts' functions. The macros of the build are `Features`.
--   uloop_run is a parameter there, which may leave the daemon in any state or die by a fault of a callback.
--
-- Libc has what the sources use of the C library, with longs of 64 bits and ints of 32, and Prelude the
-- shared names. UCI is the parameter `Uci` with the laws `UciLaws`, which Uci/Table satisfies. What libubox
-- and json-c do with blobmsg data is the parameter `Blob`; the line functions of libbbfdm, the calendar
-- and OpenSSL's digests are parameters as well. Every loop goes over a list of
-- lines, sections, attributes or samples; the printing of a number alone runs on fuel, n + 1 rounds for
-- the number n, which has fewer digits.
--
-- Not modelled: how libbbfdm goes through the tables and numbers the instances, the aliases that it keeps itself, the
-- ubus object itself beyond its methods and the result of its registration, log output and the sleeps of the
-- reboot task.
pub mod Prelude
pub mod Libc
pub mod Uci
pub mod Utils
pub mod Critical
pub mod DataModel
pub mod Memory
pub mod Dmmap
pub mod SupportedDm
pub mod Temperature
pub mod DeviceInfo
pub mod Stat
pub mod Cpu
pub mod Fwbank
pub mod FwImages
pub mod Procps
pub mod Processes
pub mod Configs
pub mod Main
pub mod Network
mod Tests
pub mod Reboots
