-- ===== src/Lib.antt =====
-- A model of the cachelib archive: a hash database on two files (tmdb), a cache server that clients
-- reach through shared memory, and the databases that a benchmark runs behind that cache.
--
-- The parts, and how they meet. A backend (backend/src/backend) answers a read from the cache, and
-- else from its database, whose answer it then stores in the cache; the cache of a backend
-- (backend/src/cache) puts a counter and a subpool's name before the key and calls the client
-- (clientserver/clientserver/clientAPI.cpp); the client writes the request into a block of shared
-- memory, and the server (clientserver/clientserver/server.cpp) serves it with the wrappers of
-- CacheLib (clientserver/cachelibheader/cachelibHeader.cpp). tmdb/src is one of the databases.
--
-- Files:
--   Base: names, lists over the native numbers, Boolean tests.
--   Stdio: files as a size and a byte for each offset, and `fseek`, `fread`, `fwrite`; a gap that a
--     seek leaves reads as zeros. Stdio.Ints: little-endian numbers. Stdio.Frame: what a write keeps.
--   CString: strings before their NUL, `rtrim`. CString.Numbers: `std::stoi`. Strings: the other
--     helpers of tmdb/src/tm_util.cpp.
--   Tmdb: tmdb/src/tmdb.cpp and tmdb.h. Layout has the constants and the two records, Handle the
--     struct `TDB` with the position and lock of each file and the result of a call (it returns,
--     exits, or is undefined), Find `_db_hash` and `_db_find_and_lock`, Store `_db_store`, Delete
--     `_db_delete`, Fetch `_db_fetch` and the outer functions, Open `_db_alloc`, `_db_create` and
--     `_db_open`. Records, Slot, Chain and Link are lemmas on the bytes of a key record, a bucket, a
--     chain and a new link. Map is the specification: the files represent a map from keys to values;
--     Map.Deleted is about what `_db_delete` does to
--     them, Map.Replaced about a store on a key that they
--     have; Map.Modes puts the modes of a store together; Map.Reopened opens the files later.
--   Cache: `set_`, `get_`, `del_` and `addpool_` over CacheLib, which is the record `CacheLib`.
--     Cache.Resize: `resizePool`, and the two passes of `executeNewConfig`, which Resize.Config is
--     about together; Resize.Parsing is how it reads a configuration.
--   Shm: the block, the requests, and the `switch` of `sharedMemCtl`. Shm.Protocol: the steps of one
--     client and the server, each an access of a semaphore or of the block, in any interleaving.
--   Registration: the registration of a client's thread, `listen_addpool` and the end of
--     `sharedMemCtl` as steps on the records of the pools, and the texts of both sides.
--   Server: the messages of `listen_addpool`, with `getCacheStats`: the configuration that it sets
--     and the sizes that it reports.
--   Backend: AutoIncCache, `pack_values` and `unpack_values`. Backend.Agreement and Freshness: what a
--     cache may answer, before and behind `invalidate_all_`. Backend.Connection: the client of the
--     backends, filled by Shm. Backend.Leveldb: LevelDBBackend over a client and a LevelDB that are
--     parameters. Backend.Disk: TmdbBackend, over Tmdb. Backend.Sql: SQLiteBackend and MysqlBackend,
--     and Backend.Mongo: MongoDBBackend, each over a database that is a parameter.
--   Benchmark: the run of YCSBBenchmark over a backend, with the random numbers given;
--     Benchmark.Fields is `randomFastString`, and Benchmark.Loading the preparation of the database,
--     which Backend.Leveldb.Loaded puts over LevelDBBackend.
--   Program: the arguments of backend/src/main.cpp, and the records at which its rounds start.
--     Program.Totals: the accesses of a round's threads to the totals, in any interleaving.
--   Latency: `TailLatency`, the queue of the largest latencies. Latency.Average: `average` of
--     backend/src/utils/percentile.h.
--
-- Bounds and fuel. The walk along a chain of key records takes fuel: the number of key records of
-- the index file is enough, since a chain that the map's invariant describes visits each of them at
-- most once. `to_string` and `unpack_values` take the number itself, or the length of the text, as
-- fuel, and use less. A run of the benchmark takes one round more than it has queries. Numbers in
-- files have 4 or 8 bytes and are cut to that width when they are written.
--
-- The counter of a cache stays below 2^31 where a property says so: it is an `int`, and one is added
-- for each insertion. The counts of a registry and the numbers of its threads are not bounded: each
-- registration adds one. A message to the server arrives whole in one `recv`, and is cut to the 1024
-- bytes of the buffer; without a NUL in it the text that is read behind its end is undefined. The
-- buffer of `_db_fetch` has 4194304 bytes, and a value that fills it makes the fetch undefined. Records
-- are numbered by `int`s: loading takes fewer than 2^31 of them. `unpack_values` is for sizes other
-- than 0, with which alone its loop ends.
--
-- Not modelled: the output of debugging and status, the calls on sockets and of the set-up of the
-- shared block, the hit statistics beyond the size of their vectors (CACHE_HIT is 0), the delays
-- that a trial of a semaphore takes, the distributions of the benchmark and the percentiles (floating
-- point; backend/src/utils/zipfian.h is a copy of another project's file), the loop of the
-- benchmark's program for warming up; writes through a handle of `_db_open` that is for reading only.
pub mod Base
pub mod Stdio
pub mod CString
pub mod Tmdb
pub mod Cache
pub mod Shm
pub mod Server
pub mod Strings
pub mod Backend
pub mod Benchmark
pub mod Latency
pub mod Program
pub mod Registration
