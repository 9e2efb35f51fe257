-- ===== src/Tests.antt =====
-- Concrete inputs for the theorems, by component.
mod Reboots
mod Monitors
mod Fwbank
mod Params
mod FwImages
mod Activate
mod Processes
mod Configs
mod Main
mod Network
mod Values
mod Banks
mod Shown
