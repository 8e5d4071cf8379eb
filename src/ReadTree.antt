-- ===== src/ReadTree.antt =====
-- git/readtree.go: the merges of trees into a new index, path by path.
pub mod Maps
pub mod GetMap
pub mod FastForward
pub mod Check
pub mod Unharmed
pub mod ThreeWay
pub mod Invariant
pub mod AllPaths
pub mod Completes
pub mod Sides
pub mod Table
pub mod Runs
pub mod Followed
pub mod Refines
pub mod WorkTree
pub mod Paths
pub mod Update
pub mod UpdateTree
pub mod Kept
pub mod Verified
pub mod Loops
pub mod LocalChanges
