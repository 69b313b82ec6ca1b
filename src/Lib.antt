-- ===== src/Lib.antt =====
-- Hologine: the platform layer (code/hologine_platform/hologine/core), a C++ framework for
-- interactive simulations, without its operating system calls. Paths below are in that directory.
--
-- The parts and their files:
--   * Text.Utf8: text/utf8.cpp and text/unicode.cpp. `utf8_increment` and `utf8_decrement` step over
--     the sequences of a byte buffer and report bad input by an exception code. Text.StringIterator:
--     text/string_iterator.cpp, the iterator over the code points of a string, their client.
--   * Text.String: text/string.cpp and text/string.hpp. Text.String.Buffers: the buffers that strings
--     share and their reference counts; Text.String: the constructors and methods; Text.String.Runs:
--     a program with its strings. An iterator reads a string through `view`.
--   * Text.StringBuilder: text/string_builder.cpp, a list of buffers that becomes a string.
--     Text.Format: text/format.hpp, the printf formats of numbers, which go into a builder's buffers.
--   * Math.Vector2, Math.Vector3, Math.Vector4 and Math.Matrix: math/vector2.cpp, vector3.cpp,
--     vector4.cpp and matrix.cpp, over the operations of Math.Scalar in place of `float`.
--   * Exception.Codes: the names of the exception codes, and their numbers as a parameter. Exception.Generator: exception.cpp, the
--     class `exception_code_generator` that gives them numbers at startup. Exception.Handler:
--     exception.cpp, the handler that each thread may enable; its callers push the codes of
--     every other part.
--   * Io.Stream: io/stream_interface.hpp as a record of operations. Io.MemoryStream fills it:
--     io/memory_stream.cpp. Io.Binary is its client: io/binary_reader.cpp and io/binary_writer.cpp
--     take any stream and swap bytes with Math.Bits (math/bits.hpp) if the byte orders differ;
--     handles are four integers there.
--   * Container.IntrusiveList: container/intrusive_list.hpp, on a heap of nodes.
--   * Handle: handle.hpp, whose fields are cut out with the masks of math/bits.hpp.
--   * Memory.MemoryRegion: memory/memory_region.cpp, with the calls of
--     code/hologine_platform/windows/core/memory/memory_region_base.cpp as a list and the rounding of Math.Util
--     (math/util.hpp). Memory.MemoryArenaPool: memory/memory_arena_pool.cpp, which cuts arenas out of
--     a region. Memory.LinearAllocator: memory/linear_allocator.cpp, on a region too, with the
--     alignment of Memory.Allocator (memory/allocator.cpp), which also has the arrays of
--     memory/allocator.hpp. Memory.FixedAllocator: memory/fixed_allocator.cpp.
--     Its free nodes stand in committed pages, and an access to another address is a fault.
--     Memory.PoolAllocator: memory/pool_allocator.cpp, objects of one size on the arenas of a pool,
--     which an intrusive list links. Memory.HeapAllocator: memory/heap_allocator.cpp, on pool
--     allocators that share the pool of arenas.
--   * Math.Bits and Math.Util also have the rotations of math/bits.hpp and the powers of two of
--     math/util.hpp and math/util.cpp.
--   * Threading.EventQueue: threading/event_queue.cpp, whose nodes a fixed allocator constructs.
--     Threading.Thread: threading/thread.cpp and the flags of threading/thread_interface.hpp, with
--     the system's calls of code/hologine_platform/windows/core/threading/thread_base.cpp as a list.
--
-- How state and operations correspond: an object is a record with the fields of the class, a method
-- a function that takes the record and returns its result beside the new record. A reference
-- parameter that is assigned is returned too. `Option` wraps the result where the code can access
-- memory it does not own or fail an assertion, which are `none`; error results that the code
-- returns are values. A pointer is a number, 0 for `nullptr`, and what it leads to is looked
-- up in a heap. Integers are natural numbers below 2 ^ w, with the wrap-around of an addition
-- written out where the code can reach it.
--
-- Most loops of the code are structural recursions on what is left to do. Fuel bounds the loop of a
-- client over a string, one round for each code point and one more; the loops over the buffers of
-- a string builder, one round for each buffer and one more; and those over the arenas of a pool
-- allocator, where an allocation from the first arena takes one round. The loop of the fixed
-- allocator's constructor takes one round for each node.
--
-- Parameters: the stream behind a binary reader or writer, the byte order of the build, what an
-- allocator constructs or answers, what the system answers when a region reserves, commits,
-- decommits or releases pages and when a thread is created, resumed or waited for, the numbers of
-- the exception codes, what snprintf prints, the intrinsic behind bit_scan_reverse, what an
-- uninitialised variable holds, and the arithmetic of `float`.
--
-- Not modelled: the rest of code/hologine_platform/windows with the procedure that a thread runs, and
-- the mutex, condition variable and thread local wrappers, which only call the operating system;
-- the proxies of allocators and the construction of single objects, which only pass their
-- arguments on.
pub mod Base
pub mod Container
pub mod Exception
pub mod Handle
pub mod Io
pub mod Math
pub mod Memory
pub mod Text
pub mod Threading
