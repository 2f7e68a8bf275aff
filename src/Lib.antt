-- ===== src/Lib.antt =====
-- A model of the oracle that runs captured WebAssembly modules: crates/oracle-core.
--
-- The program instantiates a module under wasmtime and gives it the host that emscripten and WASI
-- promise: guest memory as the host reads and writes it, a file system and clocks that are its own,
-- C++ exceptions, the embind registry, and a trace of every host call. Several guest threads run over
-- one shared memory, and a scheduler gives them turns.
--
-- The parts, their files here and the code they model (paths below crates/oracle-core/src):
--   Memory       state.rs: `read`, `write`, `read_u32` and `read_cstr` of `HostState`, on the shared
--                memory or on the window of an ordinary one. An address maps to a byte.
--   Shared       shared.rs: `SharedHost`, what all threads share. A lock or an atomic is a field, and
--                a method one critical section; `log` is two atomic steps, `reserve_seq` and
--                `push_line`, which Shared/Numbers interleaves. A clock is the number of its readings.
--   Schedule     schedule.rs: the turn that a guest thread holds. `acquire` is `begin_acquire` and
--                passes of its loop, `poll_turn`, with the time of the clock as an argument;
--                Schedule/Turns has the steps of several threads as a relation.
--   Turn         schedule.rs: `acquire`, `release` and `yield_point` of one thread on the state that
--                all share, for Runtime, Spawn and Host. What the others do while the thread waits is
--                a list of functions (`Waits`).
--   State        state.rs: `HostState`, one thread's state, with the structures of wasi.rs and cxa.rs
--                that it holds. Its handlers below take it and return it.
--   Random       the SplitMix64 generator of state.rs and its seed of shared.rs.
--   Emval        emval.rs: the table of `val` handles, the reader through pointers (Emval/Pointer) and
--                the three imports (Emval/Imports).
--   Embind       embind.rs: the registry, how a registration is read by its layout
--                (Embind/Register), and `settle`.
--   Wasi         wasi.rs: `fd_write` in Wasi, the other handlers in Wasi/Calls, `dispatch` and the
--                host function of an import in Wasi/Dispatch. What would panic returns `err`.
--   Cxa          cxa.rs, and `optional_func` of exports.rs: throwing, matching and catching. The
--                module's own functions (`malloc`, `__cxa_can_catch` and the others) are parameters.
--   Calendar     emscripten.rs: `BrokenDownTime`, with `div_euclid` on integers.
--   Runs         data.rs and runtime.rs: the scans for printable runs of bytes.
--   EngineLog    runtime.rs: the engine's log ring and the check that the host still sees the guest's
--                memory.
--   Abi          abi.rs: the decoded module as wasmparser hands it over. Abi/Layout reads its sections
--                into a `Layout`, Abi/Arms and Abi/Scan are the walk of `scan_body`, Abi/Evidence what
--                it says of a parameter, Abi/Render the listing, Abi/Infer the entry points; Abi/Search (callers,
--                constants, address bases), Abi/Texts (strings and pointers) and Abi/Invokes (the
--                trampolines' shape) are the searches. An `i32` constant is its 32-bit pattern.
--   Exports      exports.rs: looking up exports, near misses and the message of an absence, and
--                `sync_memory` of state.rs. A guest function is what a call of it does to the state.
--   Emscripten   emscripten.rs: the handlers that `define` links. Emscripten/Heap grows and maps
--                memory, Emscripten/Threads starts the main thread and takes requests for threads,
--                Emscripten/Invokes has the trampolines and the time imports, and Emscripten/Proxy the
--                calls that workers have made on the main thread.
--   Runtime      runtime.rs: calls, constructors, the queue of the main thread and the entry point;
--                the loop of `settle` in Runtime/Settle, the reports of calls in Runtime/Stubs.
--   Spawn        threads.rs: the request for a thread and what the new thread runs.
--   Host         host.rs: the hook on each crossing between host and guest, with the memory watch and
--                the record of growth, and `host_func`; the watch's start and report of runtime.rs.
--   Inspect      inspect.rs: the report's pure parts, the imports by module among them; reading the
--                sections of a binary into it is not modelled.
--   Call         call.rs: wire types, arguments and results (Call/Encode), strings in guest memory
--                (Call/Strings), and calls of registered functions and methods (Call/Embind), with
--                `malloc` of runtime.rs.
--   Vals, Values the arguments of host functions, and `Value` of call.rs.
--   Prelude      what the parts share: lists, integers, words, maps in key order, text, results.
--
-- Numbers are native; a machine word keeps its wrap-around written out, and a sum that Rust checks in
-- debug builds wraps as in a release build. A `BTreeMap` is an association list in key order. Strings
-- are their bytes. Every loop is structural on a list or on the number of passes that the code itself
-- bounds, so the only fuel is the 20 digits of a decimal `u64`, as many as the largest has, the 1024
-- vectors and 64 type ids that the code caps, the 2000 spins of a starting thread, and the passes of
-- `settle`: its timeout over 20 ms and two more, since a pass that goes on has waited for 20 ms or to
-- the deadline. An allocation is taken to succeed up to the length that `Vec` refuses.
--
-- Not under the repository, and so parameters: what wasmparser decodes (the payloads and operators of
-- Abi, with their `Debug` text), the guest's functions and tables (`Instance`, `Exports` and `Guests`),
-- `grow` of a shared memory, the guest's stack in a report, `{:?}` and `{:#x}` of a value, the float
-- arithmetic of the clock (`Env`, `Exports`), and conversions between float formats (`Floats`,
-- `Doubles`). So are the clock and what the other threads do while one waits for a turn, for threads
-- to end (Runtime/Settle) or between two locks (Host).
--
-- Not modelled: wasmtime's engine, linker and stores (the wiring of host.rs and of the `define`
-- functions, fuel, the stubs of unknown imports), starting threads of the operating system,
-- the reading of a binary for a report (inspect.rs), the file listing (catalog.rs) and the command line.
pub mod Prelude
pub mod Memory
pub mod Vals
pub mod Shared
pub mod Values
pub mod Emval
pub mod Random
pub mod Embind
pub mod State
pub mod Schedule
pub mod Calendar
pub mod Runs
pub mod EngineLog
pub mod Cxa
pub mod Call
pub mod Wasi
pub mod Abi
pub mod Exports
pub mod Emscripten
pub mod Runtime
pub mod Spawn
pub mod Turn
pub mod Host
pub mod Inspect
