-- ===== src/Tests.antt =====
-- Tests and the theorems at concrete inputs.
mod Leb128
mod Memory
mod Messages
mod Tables
mod Trees
mod TreeTables
mod TreeMaps
mod Clients
mod Values
mod Framing
mod Sets
mod Lists
