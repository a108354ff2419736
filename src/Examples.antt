-- ===== src/Examples.antt =====
-- The theorems at concrete inputs where their hypotheses hold.
mod Streams
mod Queue
mod Registry
mod Contacts
mod Rooms
mod Talk
mod Devices
mod Founders
mod Chunks
