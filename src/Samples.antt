-- ===== src/Samples.antt =====
-- Concrete runs of the components, and their theorems at concrete inputs.
mod Naive
mod Delta
mod Packfile
mod PackIndex
mod PackFile
mod Index
mod IndexFile
mod UpdateIndex
mod ReadTree
mod Commits
mod PacketLine
mod Config
mod ConfigFile
mod Checkout
mod Ignore
mod Names
