-- ===== src/Examples.antt =====
-- The theorems of each part applied to concrete states, and small runs of the definitions.
mod Disks
mod Lists
mod Spaces
mod Pages
mod Heaps
mod Texts
mod Tables
mod Files
mod Formats
mod Opening
mod Tasks
mod Boot
