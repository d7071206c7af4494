-- ===== src/Lib.antt =====
-- Vautlage, an in-memory ingestion engine written in Go: records are published into bounded rings
-- that lie outside the Go heap, one ring per shard, are found again through an index by key, and are
-- consumed by one worker per shard or by a caller of Drain.
--
-- The parts and their interaction. `Vaultage.publish` (Vautlage/fabric.go) checks the backpressure
-- gate (Vautlage/gate.go), draws a ticket, routes the key to a shard by `hashKey`, claims a position
-- of the shard's ring (Vautlage/ring.go), copies the record into the cell that serves the position,
-- advances the commit index, enters the key in the shard's index (Vautlage/index.go), and marks the
-- shard hot when it is too full, which shuts the gate. `worker` and `Drain` dequeue records, hand them
-- to the handler, release their cells, and cool the shard down, which may open the gate. `New` maps an
-- arena (Vautlage/arena.go) for the control blocks and one for each shard, lays out ring and index in
-- it, and starts the workers; `Close` stops them and gives the arenas back.
--
-- Which file models which part:
--   Prelude, Prelude/*      shared names, 64-bit words, laws of the bitwise operations
--   Atomics                 padU64 of Vautlage/cacheline.go over Vautlage/atomics.go
--   Errors                  Vautlage/errors.go
--   Layout, Layout/*        Vautlage/layout.go: the addresses of cells and header fields, alignUp
--   Gate, Gate/*            Vautlage/gate.go: the valve, its counters and thresholds
--   Record, Record/*        Vautlage/record.go: Record, the FNV-1a checksum, Verify
--   Ring, Ring/*            Vautlage/ring.go: initRing, claim, publish, advanceCommit, dequeue, release
--   Ring/Threads            the same operations a shared access at a time, for any number of threads:
--                           Threads/System has the interleavings, Threads/Calls the calls of Ring as
--                           one thread's accesses
--   Index, Index/*          Vautlage/index.go: upsert with updateMonotonic and isDead, lookup;
--                           Index/Writers has updateMonotonic a shared access at a time
--   Config, Config/*        Vautlage/fabric.go: Config, normalize, backoff
--   Platform, Platform/*    Vautlage/arena_linux.go, arena_darwin.go and arena_unsupported.go over the system
--                           calls; Platform/View says what the system maps, Platform/Manual what the
--                           manuals promise, and Platform/Lawful that the files provide what
--                           arena.go relies on
--   Arena, Arena/*          Vautlage/arena.go: NewArena with its trimming, prefault, Stats, Zero and Close
--   Fabric, Fabric/*        Vautlage/fabric.go: the engine's publish, Lookup, saturation, markSaturated,
--                           markDrained; Fabric/Consume and Fabric/Work have worker and Drain,
--                           Fabric/Build has New, Close and teardownArenas
--   Fabric/Stats, Snapshot  Vautlage/stats.go: the snapshot that Stats takes
--   Ctl, Ctl/*              Vautlage/cmd/vaultagectl/main.go: the configuration from the flags, and the
--                           loop of a producer of its load, with the attempts it comes to in
--                           Ctl/Attempts
--   Tests, Tests/*          the theorems on concrete engines, and on a small operating system
-- A Go function someName is the definition some_name of the file of its part; a method takes its
-- receiver's state and returns the state after the call. The stored arguments of ring.publish are the
-- record Header, those of keyIndex.upsert the record Entry.
--
-- Words are native numbers with the wrap-around written out; a Go int is its 64-bit pattern. Memory
-- is a function from an index to a cell, bucket or shard; Layout/Matrix shows why distinct cells and
-- fields do not overlap. Outside Ring/Threads and Index/Writers a call is the code as one thread runs
-- it with no other thread between its accesses, so calls of different threads interleave as wholes,
-- and the ring's invariant covers the states in between: positions claimed but not published and
-- dequeued but not released, in any number.
--
-- In Ring/Threads and Index/Writers a thread is a program counter with the local variables that are
-- live there, one move is one access to shared memory, and the accesses are sequentially consistent,
-- as sync/atomic promises. Threads come in any number and any order, and may stop anywhere. Writes of
-- a cell's fields are moves of their own; the bytes of a payload are one. A log beside the ring says
-- what was published at each position, for the statements only. The number of steps is bounded where
-- the cursors could otherwise outgrow the signed comparison of claim.
--
-- Fuel: claim, dequeue, updateMonotonic and advanceCommit retry on a lost CAS or move on, and take
-- fuel; `none` is fuel that ran out. One round is enough for the first three in a call of its own, and
-- one round more than there are positions between commit and tail for advanceCommit. The rounding loop
-- of normalize needs 63 rounds for at most 2 ^ 62 shards.
--
-- In New `none` is also a fault: when the size of an arena has wrapped, a cell, a bucket or a control
-- block that New stores to lies past the end of its arena (lay_out in Fabric/Build). Fabric/LayOut has
-- the room that rules it out. A store that goes past an arena is taken as a fault, wherever it lands.
--
-- The loop of prefault needs a round more than there are pages, for which the bytes of the arena and
-- one huge page are fuel enough. Drain needs more fuel than there are records, and a worker that is
-- told to stop more rounds than its ring holds records.
--
-- Parameters: the answers of time.Now and of GOMAXPROCS; the handler, which keeps a state of its own
-- and does not call the engine; the system calls and the page size, with what their manuals say of
-- them (Platform/Manual), a state of the operating system that they pass on, and a view of
-- that state: the bytes mapped, the bytes stored to, and the number of calls of munmap that failed.
--
-- Not modelled: the interleaving of single accesses elsewhere than in ring.go and updateMonotonic,
-- such as the two passes of upsert, lookup and the callers of the gate; the scheduling of the workers
-- and of the clock's ticker, of which New records only what it starts, and the wait for them in Close;
-- Bytes, which is a view of memory; the reports of the command line; the tests and the benchmarks.
pub mod Prelude
pub mod Errors
pub mod Atomics
pub mod Layout
pub mod Gate
pub mod Record
pub mod Ring
pub mod Index
pub mod Config
pub mod Platform
pub mod Arena
pub mod Fabric
pub mod Ctl
pub mod Tests
