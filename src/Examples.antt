-- ===== src/Examples.antt =====
-- Runs at concrete inputs: a host with domains, devices and files, and the theorems applied there.
mod Hosts
mod UsbPins
mod PciPins
mod TpmPins
mod Consoles
mod Schedules
mod Boots
mod Targets
mod Preferences
mod Machines
mod Shares
mod Requests
