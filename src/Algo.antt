-- ===== src/Algo.antt =====
-- mmkv/algo: the containers.
pub mod Slist
pub mod ReservedArray
pub mod Keyed
pub mod Ordered
pub mod HashTable
pub mod Comparator
pub mod AvlTree
pub mod TreeHashTable
pub mod TableIterator
pub mod HashSet
pub mod Blist
