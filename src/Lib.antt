-- ===== src/Lib.antt =====
-- Verification of the veritable lasagna C library (include/core/vl, src/core).
--
-- The library is a set of containers and utilities in C. Its linked containers (queue, deque, list)
-- keep their elements in a pool: the pool hands out indices, a container stores an element behind a
-- header in the slot of an index, and the headers link the slots by their indices. So the theorems
-- on such a container rest on those on the pool, and on nothing else of it. The stack keeps its
-- blocks in the growable buffer, and the MessagePack encoder writes to such a buffer and keeps its
-- open containers in such a stack. An ordered set is a tree of such slots, and an arena keeps its
-- free regions in such a set.
--
-- Parts, files and correspondence:
--
--   Pool (src/core/vl_pool.c, include/core/vl/vl_pool.h). The record `Pool` has the fields of
--   `vl_pool`; the operations are vlPoolInitAligned `init`, vlPoolTake `take`, vlPoolReturn
--   `return_idx`, vlPoolSample `sample` and `write`, vlPoolClear, vlPoolReset, vlPoolReserve,
--   vlPoolClone and vlPoolFree under their own names. Pool.Owns says when a pool has handed out
--   just the indices of a list; Pool.Take, Pool.Give, Pool.Reserve and Pool.Tables prove what
--   each operation makes of it.
--
--   Queue (src/core/vl_queue.c). The singly linked queue; Queue.Fifo relates each call to a list,
--   and Queue.Runs every sequence of calls.
--
--   Linked. The doubly linked slots that src/core/vl_deque.c and src/core/vl_linked_list.c share:
--   the links of a push, a pop, an insertion and a removal, in Linked.Push, Pop, Between and
--   Bridge.
--
--   Deque (src/core/vl_deque.c), related to a list in Deque.Refines.
--
--   LinkedList (src/core/vl_linked_list.c): pushes, pops, insertion at and removal of an
--   iterator, and the search, in LinkedList.Insert, Remove and Find.
--
--   Buffer (src/core/vl_buffer.c): the growable byte buffer; Buffer.Write and Buffer.Read have
--   the growth, the bytes written and read, and the round trip.
--
--   Stack (src/core/vl_stack.c): blocks of bytes behind headers in a buffer of Buffer;
--   Stack.Words reads the words of a header back, and Stack.Lifo relates the calls to a list of
--   blocks. The encoder of MsgPack keeps its open containers in such a stack, which is a list
--   there.
--
--   Set (src/core/vl_set.c): the red-black tree over the pool. Set has the node, the rotations,
--   the walks and vlSetFind; Set.Insertion vlSetInsert, whose loops are `locate` and `fixup`;
--   Set.Removal vl_SetRemoveFixup, vl_SetTreeSuccessor, vlSetRemove and vlSetRemoveElem;
--   Set.Algebra vlSetCopy, vlSetClone, vlSetUnion, vlSetIntersection and vlSetDifference. What
--   the source writes twice, for left and right, is written once for a `Side`. Set.Tree says when
--   the slots hold a tree, Rotation (with Fields, Turning and its children) what a turn makes of
--   it, Search what the search finds, Growth, Descent and Attach where the new leaf goes, Chain,
--   Straighten and Fixup how the loop that colours ends, and Refinement puts these together
--   against the sorted lists of Order and Sorted. Walk has the iteration, and Visit and Filtered
--   the operations on two sets.
--
--   Arena (src/core/vl_arena.c): pieces of one growing memory. Its set of free regions is the
--   sorted list that Set.Refinement relates a set to, and Arena.FreeSet relates the insertion of
--   a region to vlSetInsert. vl_HeapCoalesce is `coalesce`, which finds the region that was
--   inserted, with `scan_right` and `merge_left` as its two phases, vlArenaMemAlloc `alloc`,
--   vlArenaMemFree `free`, vlArenaMemRealloc `realloc`, vlArenaMemSize `mem_size`, and in
--   Arena.Reserve vlArenaTotalFree `total_free` and vlArenaReserve `reserve`. Arena.Cover counts
--   how often a byte is covered, Positive is about the sizes of the free regions, Tiled says when
--   every byte of the memory belongs to just one region, Alloc, Free, Realloc, Moved and Reserve
--   are about one call each, and Runs about every sequence of them.
--
--   Memory (src/core/vl_memory.c): vlMemSort as `sort`, with vl_MemSortPartition as `partition`
--   and the loop of vl_MemSortQuicksort as `quicksort_loop`; Memory.Shuffle is about its swaps,
--   Partition and Sort about the two functions. Memory.Reverse has vlMemReverseSubArraysStride as
--   `reverse_sub_arrays`, and Memory.Copy vlMemCopyStride as `copy_stride`.
--
--   Compare (src/core/vl_compare.c): the comparators of VL_COMPARE_FUNC as `compare` and
--   `compare_reverse`, for any test that stands for `<`, and that test on words as signed
--   integers. Such a comparator is what a set and the sort take, and in Arena.FreeSet the one of
--   an arena.
--
--   Stream (src/core/vl_stream_memory.c): the stream over a block of memory, its calls as `read`,
--   `write`, `seek` and `tell`; Stream.Bounds is about what they move over, Seek about positions,
--   and RoundTrip about what is read back.
--
--   Rand (src/core/vl_rand.c): vlRandNext, with the words of 64 bits, as `next`, and vlRandFill,
--   at an address, as `fill`.
--
--   Algo (src/core/vl_algo.c): the binary algorithm of vlAlgoGCD, vlAlgoLCM, the overflow tests,
--   and in Algo.Zeros vlAlgoCLZ32 `clz32` and vlAlgoCLZ64 `clz64`, in their portable branches.
--
--   MsgPack (src/core/vl_msgpack_io.c, include/core/vl/vl_msgpack_io.h). MsgPack.Format is the
--   format, written down apart from the code: the bytes of a value and of a document.
--   MsgPack.Encoder has the stack of open containers and the calls that begin and end them,
--   Encoder.Values the other calls vlMsgPackIOEncode*, and Encoder.Trees vlMsgPackIOEncodeFromDOM
--   as encode_doc, on a tree in place of the document's iterators. MsgPack.Decoder has
--   vlMsgPackIODecoderNext as `next`, with a function for each group of cases of its switch.
--   Encoder.Items, Containers and Documents compare the calls with the format, Decoder.Items and
--   Documents read the format back, MsgPack.RoundTrip puts the two together, and Decoder.Bounds,
--   Safety, Progress and Overrun are about sources with any bytes.
--
--   Base has the shared names, tests, and lemmas on lists and chains; Samples and LinkedSamples
--   have the data that the Examples modules use.
--
-- Memory is modelled as follows. An index is a 64-bit number, the ordinal of its block in the low
-- half and the ordinal of its element in the high half, as on a little-endian system. A block is a
-- function from ordinals to contents, so a slot that was never written has some contents too;
-- addresses, alignment and element sizes are left out, and an element is a value of a type. The
-- answer of the allocator to a call is an argument of it, and `none` is a null pointer. A write
-- behind the lookup table, or a read through a null pointer of the pool, gives `none`, and so does
-- a copy from behind the allocation of a buffer.
--
-- Words in the memory of a stack are little-endian. The encoder's byte buffer is the list of the
-- bytes below its offset. What the bytes hold that a begin call claims is a parameter. A float is
-- its bits, a signed integer has its own type and meets words in two's complement, words are in
-- memory as on a little-endian system, and a pointer in a token is an offset in the source. A call
-- of the decoder that returns VL_FALSE has no token. The sum extLen + 1 at the largest int, which C
-- does not define, is taken as it is.
--
-- The blocks of an arena begin with their sizes, as words in its memory; a pointer is an offset in
-- it, and a reallocation of the memory succeeds. A sum of an offset and a size of regions inside
-- the memory does not wrap.
--
-- The comparator of a set is a function into an ordering, the sign of comparator(node, element);
-- the operations on two sets take two sets of the same comparator and a destination that is
-- neither. The count that vlSetCopy returns is left out. Where a round of `fixup` starts with a
-- node that has no parent or no grandparent, which the code would read through a null pointer, the
-- model gives `none`.
--
-- Bounds and fuel. The indices of a sort are ints, and a larger one gives `none`. Counters have 32
-- bits and the growth increment 64, with their wrap-around written out. vlPoolReserve runs on `n +
-- 1` rounds, which are enough as every block has an element; the loop of vlBufferWrite, which an
-- arena grows by too, doubles at most 64 times, which reaches every size below 2 ^ 63; vlListFind
-- runs on a fuel argument, and more than the number of elements is enough; so do the loops of a
-- set, and more than the number of its nodes is enough for the search and the insertion; the loops
-- of vlAlgoGCD run on their operands, which fall in every round; the loop of vlMemSort runs on the
-- number of elements, as every round puts an element in its place.
--
-- Not modelled: calls that only allocate and release, as vlSetNew, vlSetFree and vlSetDelete;
-- vlListCopy and vlListSort; vlArenaClone, vlArenaMemPrepend and vlArenaMemAppend, whose source may
-- be an address in the arena itself; the allocation calls of src/core/vl_memory.c, which wrap
-- malloc; comparators on floats, which are no orders because of NaN; the MessagePack document
-- (src/core/vl_msgpack.c) and vlMsgPackIODecodeToDOM, which fills it; hash tables, whose elements
-- are chained through addresses in an arena; the asynchronous pool and queue, which rest on the
-- platform's atomic operations and their memory order; the stream over a buffer, which passes its
-- calls on; and what only calls the operating system, the platform's threads, or vector
-- instructions.
pub mod Base
pub mod Pool
pub mod Queue
pub mod Linked
pub mod Deque
pub mod LinkedList
pub mod Buffer
pub mod Algo
pub mod MsgPack
pub mod Stack
pub mod Set
pub mod Rand
pub mod Arena
pub mod Memory
pub mod Compare
pub mod Stream
pub mod LinkedSamples
pub mod Samples
