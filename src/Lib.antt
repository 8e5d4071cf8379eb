-- ===== src/Lib.antt =====
-- A model of dgit, an implementation of git in Go: the parts of package git that compute without
-- input or output, and theorems on them.
--
-- Delta models git/delta. Delta/Instruction has the instructions of git/delta/calculator.go and
-- their encoding (`write`, `writeVarInt`), Delta/Calculator has `calculate`, `longestPrefix`,
-- `nextPrefixStart` and `CalculateWithIndex`, and Delta/Reader has the Reader of
-- git/delta/reader.go, whose `Read` is a step from a reader and a buffer size to a reader and the
-- bytes delivered. The suffix array of the Go library is a parameter, `Index` in
-- Delta/Calculator: its lookup finds an occurrence, and finds one where there is one.
-- Samples/Naive has one that can be run. Writers and sources of bytes are lists of bytes, so a
-- write does not fail.
--
-- Packfile models the entry headers of git/packfile.go: `WriteVariable`, `ReadHeaderSize` and
-- `ReadDeltaOffset`. Packfile/Offset has git's format for the offset of a delta's base, as an
-- independent description.
--
-- PackIndex models the index of a pack in git/indexpack.go. PackIndex/Build has how `IndexPack`
-- fills its tables by `updateFanout` and the callbacks of `indexClosure`, for objects that come
-- one after the other with their ids, and its sort; PackIndex/Search has `HasObject`, and
-- `GetObject` up to the offset; PackIndex/Cached has the offset that `v2PackIndexHasSha1` caches.
-- PackIndex/File has the index file over bytes, as `writeIndex` writes it and `getPackFileObject`
-- reads it to find an object's offset; the two ids of the trailer are given.
--
-- Index models git/index.go: the entries with their flags and order in Index/Entry, `AddStage`
-- and `RemoveUnmergedStages` in Index/Stages, and the operations on the first entry of a path in
-- Index/Files; Index/Compare has `CompareStat`, and Index/Format the index file: `WriteIndex`,
-- `ReadIndex` and `ReadIndexEntry`, over bytes, with SHA-1 as a parameter;
-- Index/Unmerged has `GetStageMap` and `GetUnmerged`. An index is a value
-- that the operations take and return. `sort.Sort` is an insertion sort; entries of different
-- keys have one sorted order. The work tree is a parameter, `WorkTree`: which paths exist, and
-- their stat data. Index/Update has `AddFile`, and `UpdateIndex` of git/updateindex.go with its
-- loop over the files, and Index/IndexInfo `UpdateIndexFromReader` over the lines of its input and
-- `UpdateIndex` as a whole; what they ask of a file is a `WorkFile`. An operation gives the index
-- as it leaves it, next to its error.
--
-- ReadTree models the merges of git/readtree.go. ReadTree/Maps has the index maps of
-- git/index.go, each as the list of its entries in the order of one iteration, and `IsClean` of
-- git/client.go, whose files are a parameter. ReadTree/FastForward is `ReadTreeFastForward` from
-- the maps of the index, the parent and the destination to the new index, and ReadTree/Table the
-- table of git-read-tree(1); ReadTree/Followed has the rows that the code follows, which differ
-- from it for an initial checkout. ReadTree/ThreeWay is the loop of `ReadTreeThreeWay` that builds the
-- new index by `AddStage` and `RemoveFile` of Index, with one time for all of its calls.
-- ReadTree/Check is the loop before it, which looks for conflicts with the old index;
-- ReadTree/AllPaths and ReadTree/Completes have why the merge comes to its end, and
-- ReadTree/Unharmed what it may do where the check passes. Reading the
-- trees is left out.
--
-- ReadTree/WorkTree has the work tree as the ids of its files' contents by path, a directory being
-- the files below it. ReadTree/Paths has the paths that `checkMergeAndUpdate` refuses,
-- ReadTree/Update its check of the files on disk with `checkReadtreePrereqs` and
-- `checkSparseMatches`, and ReadTree/UpdateTree its changes of the work tree, by
-- `CheckoutIndexUncommited` of git/checkoutindex.go. LsFiles, the regular expressions of the
-- source and strings.ToLower are parameters.
--
-- Commits models the commit graph of git/sha1.go: `Parents`, over a store of object contents and
-- a hexadecimal decoder that are parameters, `AncestorMap` without its cache, and `IsAncestor`;
-- and `MergeBase` of git/mergebase.go without the option Octopus, over ids that are resolved
-- already. Commits/RevList is `RevList` of git/revlist.go without the options Objects and
-- VerifyObjects.
--
-- PacketLine models packet lines: `PktLineEncode`, `PktLineEncodeNoNl` and `loadLine` of
-- git/retrieve.go, and in PacketLine/Reader `packProtocolReader` of git/fetchpack.go, over a
-- connection that is a list of bytes. PacketLine/Stream has what a sender puts on the wire.
--
-- Config models the sections of git/config.go with `SetConfig`, `Unset`, `GetConfig` and
-- `GetConfigSections`; Config/Parse has `ParseConfig` with `ParseSectionHeader` and `ParseValues`,
-- and `WriteFile`, over texts as lists of codes. White space in a configuration is the one of ASCII,
-- and a slice out of range is an outcome of its own. Config/Spaces has strings.TrimSpace on any
-- bytes, with the white space of Unicode, for paths and for the lines of index-info.
--
-- Ignore models the patterns of git/ignore.go: `Matches`, `Negates` and `matchesGlob`, with
-- filepath.Match and filepath.Rel of the Go library as parameters.
--
-- RefSpec has the two sides of a refspec of git/refspec.go, and EntryMode the modes of
-- git/entrymode.go.
--
-- Fuel: the loop of `calculate` takes as many rounds as the target has bytes at most, and so does
-- the binary search; running out is an outcome of its own. The loops of `WriteVariable` and
-- `PutUvarint` divide by 128 in each round, so the number itself is fuel enough. `read_all`,
-- which calls `Read` until all bytes are delivered, takes one round more than there are bytes.
-- The recursion of `AncestorMap` is as deep as the history, so fuel above the rank of the commit
-- is enough; `RevList` takes one more. A `Read` with a side band takes the length of the
-- connection and one, since every packet takes bytes.
--
-- Numbers are natural numbers, wrapped where the source's type is, at 8, 16, 32 or 64 bits.
--
-- Not modelled: files, connections and processes (cmd, most of git), compression (zlib), the
-- vendored packages, and the walk over the work tree.
pub mod Commits
pub mod Config
pub mod Delta
pub mod EntryMode
pub mod Ignore
pub mod Index
pub mod PackIndex
pub mod PacketLine
pub mod Packfile
pub mod Prelude
pub mod ReadTree
pub mod RefSpec
pub mod Samples
