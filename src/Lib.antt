-- ===== src/Lib.antt =====
-- A verification library for rocksdb-pmdk, a write cache of rocksdb that lies in persistent
-- memory.
--
-- The program. Chunks of sorted pairs are flushed into ranges, one range for each prefix of the
-- keys. A range is a persistent table in a hash map (NvRangeTab) with a buffer, behind whose used
-- part each chunk is appended together with a bloom filter and its length. In memory a range has a
-- list of the blocks in its buffer; a restart rebuilds it from the bytes. A read of a range tries
-- the chunks from the newest to the oldest: the filter first, then a binary search through the
-- chunk's iterator. Beside this stand a second hash map, a cursor over ranges, and three
-- allocators: PersistentAllocator, which the cache asks whether to compact, NVMArena and
-- ConcurrentNVMArena, for memtables in a mapped file.
--
-- Which file models what:
--     Base, Base/Lists, Base/Results, Base/Words, Base/Bits, Base/Regions: shared helpers, among
--     them the laws of | and ^ on binary numbers and, with Base/Regions/Updates, of disjoint
--     pieces of memory. Run is the result of a call that may throw, end the process or reach
--     outside of an array; Returns states that a call ends normally with a good result; add64,
--     sub64 and mul64 are arithmetic on size_t and uint64_t, with the wrap-around written out.
--     Memory, Memory/Defs, Memory/Laws: persistent arrays as byte buffers with bounds, and the
--     interface Fixed64 of rocksdb's EncodeFixed64 and DecodeFixed64.
--     Chunk, Chunk/Iterator: persistent_chunk.h, persistent_chunk_iterator.h,
--     persistent_chunk_iterator.cc. Chunk/Format is an independent description of a chunk's
--     bytes, Chunk/Open compares the two, with Chunk/Views on the slices, and Chunk/Walk has
--     walks with the methods of the iterator.
--     ChunkBlk: chunkblk.h. Comparator: the interface of rocksdb's InternalKeyComparator.
--     NvRangeTab, NvRangeTab/KeyRange: nv_range_tab.h, and the code of fixed_range_tab.h and
--     fixed_range_tab.cc that encodes and reads the key range. NvRangeTab/Fresh: a new table.
--     RangeTab, RangeTab/State, RangeTab/Search: fixed_range_tab.h and fixed_range_tab.cc. The
--     files below RangeTab and RangeTab/Search hold the proofs: Blocks, Append and Rebuild on
--     the bytes of a range, Get and Get/Rounds on reads, Cycle on an append and what follows it,
--     Refine on a range as the list of its chunks, Scan on the iterators of a range, Edge on the
--     cases that the code does not guard.
--     HashMap, HashMap/Heap: pmem_hash_map.h, whose chains stand in a heap of nodes.
--     HashMap/Chains and HashMap/Contents hold the proofs. HashMap/Nodes with Lookup, Again and
--     Drops: pmem_hash_map.cc, the version of the map that the cache uses.
--     Allocator: PersistentAllocator of fixed_range_chunk_based_nvm_write_cache.h.
--     Arena with Serve and Series: nvm_arena.h and nvm_arena.cc.
--     Cache with Ranges, Routing and Choice: fixed_range_chunk_based_nvm_write_cache.h and
--     fixed_range_chunk_based_nvm_write_cache.cc. Cache/Open has the constructor, the destructor
--     and NewIterator, Cache/Restart and Cache/Survival what a restart recovers. Cache/Contents
--     has the cache as a map from prefixes to lists of chunks, with Steps, Appends and Blank,
--     Fresh on the two branches of AppendToRange, Extended on one node more, Series on any
--     series of calls, NewPool on a cache from its constructor on, Walk and Reopened on the
--     rebuilding of ranges with the number 0, Losses on what is read behind it, Listing on what
--     NewIterator hands out, and Idle on MaybeNeedCompaction; Cache/Scan is about NewIterator.
--     Concurrent with Shards, Sharing, Calls and Usage: AllocateImpl of concurrentnvmarena.h,
--     one call and any series of them, and what the arena reports of its memory. The locks order
--     the calls: a shard is changed under its own lock only, and the arena under the arena's, so
--     that calls that overlap come to a series. Concurrent/Blocks: Allocate and AllocateAligned
--     of concurrentnvmarena.cc, with Handouts on one request, History and Service on any series
--     of them, and Edge on the rounding and on builds that define MAP_HUGETLB. rocksdb's Arena
--     is a parameter, and so is what the locks decide.
--     Pstl with TableSize and Spread: persistent_hash_map.h and persistent_hash_map.cpp.
--     RangeIterator: fixed_range_iterator.h.
--     Tests: concrete versions of the parameters, and the theorems at concrete inputs.
--
-- Bounds and fuel. Words have 64 bits. searchInChunk has two rounds more than the chunk has pairs,
-- Get one round more than there are blocks, RebuildBlkList one round more than the buffer has used
-- bytes; each round of the search narrows the interval, each round of Get goes one block down,
-- each round of the rebuild moves on by eight bytes at least. The walks through the chains of a
-- hash map take their fuel as an argument, of which more than the number of entries is enough. A
-- persistent array has the size that it was allocated with: an access beyond it, which the code
-- would make, is the fault out_of_bounds here.
--
-- Parameters: the size of libpmemobj's persistent_ptr, the comparator, the bloom filter's test,
-- the prefix extractor, the pool that gives arrays, the address that an allocation returns,
-- CityHash64WithSeed, the hash of a content, the mapping of a file, OptimizeBlockSize, the blocks
-- that new returns, whether the build defines MAP_HUGETLB, MAXIMUM_CAPACITY, the length of the
-- cache's hash map and its data space, and the little-endian code of 64-bit words. Each has the
-- laws that its documentation gives, and Tests has a concrete version.
--
-- How the source is read where it does not compile: the table of a range is called pmap_node_ and
-- nonVolatileTab_, its block list chunk_offset_ and blklist; each pair is one field. The seq_num_
-- of a new node, which the source leaves as a question mark, is a parameter. In
-- concurrentnvmarena.cc alloc_ptr_ is read as aligned_alloc_ptr_ and AllocateFallback(bytes) as
-- the call for aligned memory, in pmem_hash_map.cc node as nod, and in persistent_hash_map.cpp >>>
-- as the shift that fills with zeros. A transaction either makes all its writes or none.
--
-- Not modelled: the copy of the PMDK headers in pmdk-include (its calls are parameters), PMDK's
-- ex_common.h, the overloads of NvRangeTab::equals (declared, never defined), code behind the
-- return of FixedRangeTab::Append, the driver, the tests and the scripts. Crashes in the middle of
-- a transaction and the order in which a weak memory shows the relaxed loads are not modelled
-- either.
pub mod Base
pub mod Memory
pub mod Chunk
pub mod Comparator
pub mod ChunkBlk
pub mod NvRangeTab
pub mod RangeTab
pub mod HashMap
pub mod Allocator
pub mod Arena
pub mod Cache
pub mod Concurrent
pub mod Pstl
pub mod RangeIterator
pub mod Tests
