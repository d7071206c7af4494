-- ===== src/Tests.antt =====
-- The theorems at work on small concrete engines, rings and indexes.
mod Data
mod Rings
mod Layouts
mod Indexes
mod Arenas
mod Lives
mod Engines
mod Schedule
mod Threads
