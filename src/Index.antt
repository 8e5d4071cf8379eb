-- ===== src/Index.antt =====
-- git/index.go: the index, the operations on it and their properties.
pub mod Entry
pub mod Stages
pub mod Files
pub mod Format
pub mod Decoding
pub mod LongName
pub mod EntryTrip
pub mod FileTrip
pub mod Order
pub mod Sorted
pub mod WellFormed
pub mod Adding
pub mod AddStage
pub mod Effect
pub mod Removing
pub mod Placed
pub mod Flags
pub mod Compare
pub mod Update
pub mod IndexInfo
pub mod Updating
pub mod UpdateIndex
pub mod ReadInfo
pub mod Unmerged
pub mod StageMap
pub mod Lookups
