-- ===== src/Tests.antt =====
-- The theorems at concrete inputs.
mod Players
mod Databases
mod Files
mod Devices
mod Tables
mod Texts
mod Threads
mod Settings
mod Startups
mod Reads
mod Sessions
mod Reports
mod Watching
mod Bluetooths
mod Joysticks
mod Navigations
mod Digests
