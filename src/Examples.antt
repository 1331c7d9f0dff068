-- ===== src/Examples.antt =====
-- Concrete states, and the theorems of the list of results that have a condition, each at one of
-- them.
mod State
mod Sync
mod Lists
mod Tasks
mod Ticks
mod Runs
mod Packets
mod Tables
mod Strings
mod Boot
mod Prints
mod Ports
