-- ===== src/Lib.antt =====
-- dariadb (libdariadb): a verified model of how measurements are compressed, kept in chunks, and
-- read back.
--
-- A measurement (`Meas`: id, time, value, flag) goes to a chunk. The chunk appends it to a facade
-- over three compressors that share one buffer of bytes, filled from its end to its start: times as
-- differences of differences, values as differences of their bits, flags in groups of seven bits.
-- The first measurement stands in the chunk's header and takes no room in the buffer. A reader
-- starts at the end of the same memory and undoes the three in the same order; the cursor of a chunk
-- returns what it reads, less measurements that repeat a time. Cursors stand on cursors: those that
-- overlap are merged by time, and those that do not are read one after the other. In memory, the
-- chunks of one id are a track: a current chunk, and an index of full ones by their maximum time, in
-- memory that an allocator hands out. A log keeps measurements in a file as they come; a page keeps
-- chunks, and an index over them. A map in stripes of locks keeps what is known by id, and a pool of
-- threads runs the tasks.
--
-- Files, each with the code that it models:
--   Base                    names, tests, lists over the native numbers, the `Option` monad of code
--                           that may fault, machine words, bit operations as arithmetic
--   Meas                    libdariadb/meas.h, meas.cpp, utils/in_interval.h
--   Compression/Buffer      libdariadb/compression/bytebuffer.h, bytebuffer.cpp (`ByteBuffer`);
--                           Stream: what is put and what lies ahead, independent of addresses
--   Compression/Delta       libdariadb/compression/delta.cpp, utils/bitoperations.h; `append` is
--                           `DeltaCompressor::append`, `time_read` is `DeltaDeCompressor::read`
--   Compression/Xor         libdariadb/compression/xor.cpp, utils/cz.h; `append`, `value_read`
--   Compression/Flag        libdariadb/compression/flag.cpp; `append`, `flag_read`
--   Compression/Facade      libdariadb/compression/compression.h, compression.cpp
--                           (`CopmressedWriter`, `CopmressedReader`)
--   Storage/Bloom           libdariadb/storage/bloom_filter.h, utils/jenkins_hash.h
--   Storage/Statistic       libdariadb/stat.h
--   Storage/Chunk           libdariadb/storage/chunk.h, chunk.cpp; Reader is `ChunkReader`
--   Storage/Cursor          libdariadb/interfaces/icursor.h, icursor.cpp, query.h: the interface, with
--                           the cursors that fill it in Instances
--   Storage/Select          libdariadb/storage/chunk.cpp (`Chunk::getReader`, `Chunk::stat`)
--   Storage/FullCursor      libdariadb/storage/cursors.cpp (`FullCursor`)
--   Storage/Merge           the same file (`MergeSortCursor`); Union is what it should give
--   Storage/Linear          the same file (`LinearCursor`)
--   Storage/Collapse        the same file (`CursorWrapperFactory::colapseCursors`)
--   Memory/Allocator        libdariadb/storage/memstorage/allocators.h, allocators.cpp; Run is the
--                           calls of its clients, as a step relation
--   Memory/Track            libdariadb/storage/memstorage/timetrack.h, timetrack.cpp, memchunk.h: the
--                           chunks of one id, with the reads in Query and `TimeTrack::append` in Append,
--                           what is dropped in Drop, and `minMaxTime` in Spread
--   Storage/Pages           libdariadb/storage/pages/helpers.cpp, index.h, index.cpp, page.h: the chunks
--                           of a page in Compress, `writeToFile` in Write, the index in Search
--                           and, at 2 ^ 32 records, Endless
--   Storage/Wal             libdariadb/storage/wal/walfile.cpp, status.h (`WALFile`), with its reads in
--                           Intervals and Queries
--   Container/StripedMap    libdariadb/utils/striped_map.h (`stripped_map`), with its locks in Locks
--   Async/Pool              libdariadb/utils/async/thread_pool.h, thread_pool.cpp (`ThreadPool`): a step
--                           relation on the pool; Fair, Tasks and Flush are about its runs
--   Examples                the theorems at concrete inputs, and runs
--
-- State is passed through each call. A buffer is its memory, capacity and position; the pointers
-- that several objects hold to one buffer are one field of the object that owns them all. `none` is
-- undefined behaviour (an access outside of an array or of the memory, a shift by the width) or an
-- exception, such as a failed `ENSURE` in a build with `DOUBLE_CHECKS`, which the argument `checks`
-- says. Words of w bits are numbers below 2 ^ w with the wrap-around written out, `int64_t` and
-- `double` are bit patterns.
--
-- Fuel: the loop of `FlagCompressor::append` has 5 rounds, since a flag of 32 bits has five groups
-- of seven; the loop of `FlagDeCompressor::read` has 10, since the shift of the eleventh byte would
-- be undefined; `skip_equal` has as many rounds as the array has measurements. `drain` and
-- `full_drain` are loops of a caller, and their fuel is an argument of their theorems, as is that of
-- the loops of `apply` and `read_time_point` and of `links_from`, for which a round more than there
-- are records is enough while they are fewer than 2 ^ 32; `skip_time`
-- of the merge has two rounds more than the count of the reader, and two are enough for times that
-- rise; `compress_rounds` has a round for each measurement, since a chunk takes one at least; the
-- loops over a reader in Select, Track and Pages have two more than the count of the chunk, one more
-- than its reader can return, and `none` when a reader would return more. All other loops are
-- recursion on a count or on a list.
--
-- Bounds: buffers are shorter than 2 ^ 32 bytes, as their positions are. A series `AreExact` when
-- its measurements fit their types, no difference of differences of times is even and from -524287
-- to -4096 (`IsLossy`), and no two neighbouring values differ in both their highest and their lowest
-- bits (`SpansWord`).
--
-- Parameters: comparison and sum of doubles (`Doubles`), the checksum and the lock-free queue of
-- boost (`FreeQueue`, `IsFifo`), the conversion of a capacity over `float`, `std::sort`, which for
-- cursors takes the comparator of the program (`IsSort` is its law), whether `std::vector::reserve`
-- accepts a count, the cast of a cursor to the class of a new one, the header in new memory, the
-- hash of a key of a map, the size and the first contents of a header, and whether a task asks for
-- another call. A track takes its allocator and its container of chunks as interfaces.
--
-- Not modelled: `MemStorage` over the tracks, the manager of the logs, pages as files and their manager,
-- the engines and the scheme, which stand on the parts here; the locks of the tracks and storages, and
-- the waiting of threads; files but for what logs and pages hold, SQL, JSON, sockets and logging, which
-- are input and output.
pub mod Base
pub mod Meas
pub mod Compression
pub mod Storage
pub mod Memory
pub mod Container
pub mod Async
pub mod Examples
