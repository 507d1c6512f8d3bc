-- ===== src/Examples.antt =====
-- The theorems at concrete inputs.
mod Scheduling
mod Memory
mod Files
mod Disks
mod Devices
mod Frames
mod Processes
mod Endings
mod Screens
