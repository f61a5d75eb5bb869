-- ===== src/Tests.antt =====
-- The theorems at concrete inputs.
mod Scheduling
mod Tables
mod Mapping
mod Calls
mod Threads
mod Clock
mod Processors
mod Copying
mod Together
mod Lives
mod Dumping
mod Heaps
mod Isolated
mod Sharing
mod Aliasing
