-- ===== src/Lib.antt =====
-- The benchmarks of this repository measure logging libraries in two ways. A program of
-- benchmarks/call_site_latency logs from one and then from four threads and samples how long a call of
-- the library takes; a program of benchmarks/backend_total_time logs from one thread and measures how
-- long the library takes until everything is in its file. This library models both families as they are
-- compiled, and proves what makes their numbers comparable: which messages are logged, when the clocks
-- are read, and how the samples become the numbers of the report. It also models the core of Quill, the
-- library that the repository keeps in quill/: how a logging call gets its arguments to the backend.
--
-- The parts:
-- - Prelude: lists, Boolean tests, decimal numbers, integers and sorting. Platform: what the standard
--   library and the operating system give, as parameters with named laws (`Doubles`, `Random`), and the
--   outcomes of a piece of the program (`Outcome`), among them an exception that ends the process.
-- - Call: the calls of the logging libraries in the benchmarks. Most of the libraries are vendored
--   (vendor_manifest.json), so a call is recorded with its level and arguments, and not interpreted.
-- - CallSite: benchmarks/call_site_latency/call_site_latency_bench.h and call_site_latency_bench_common.h.
--   Share is `messages_for_thread`, Wait is `wait`, Payload the values that are logged, Producer is
--   `run_log_benchmark`, Barrier is `wait_for_all_threads_to_start`, Ticks is `ns_per_rdtsc_tick`, Report
--   the text that `run_benchmark` prints, and Run is `run_benchmark` itself.
-- - Latency: the programs benchmarks/call_site_latency/benchmark_*.cpp. Program is the frame that they
--   share, Quill, Workers, Fmt, Streams and Boost are the programs, Drain has the backend threads that
--   they run themselves, Targets is CMakeLists.txt, Options is benchmark_quill_frontend_options.h, and
--   Records and Runs have theorems on all targets.
-- - Throughput: benchmarks/backend_total_time. Program is the frame, Quill, Workers, Fmt and Boost are the
--   programs, Tail is `file_tail_contains`, Targets is CMakeLists.txt; Records and Waits have the theorems.
-- - Tables: tools/generate_tables.py, as far as it finds the percentiles in the report of a
--   latency program (Columns, ReadBack) and the numbers in the line of a throughput program (Line, LineBack).
-- - Quill: quill/include/quill. Codec is core/Codec.h with std/Vector.h, List.h, Deque.h, ForwardList.h,
--   Array.h, Optional.h, Pair.h, Tuple.h, Set.h, UnorderedSet.h, Map.h and UnorderedMap.h: how arguments
--   become bytes and are read back (the modules named Faithful, Statement and Types have the proofs).
--   SizeCache is core/InlinedVector.h, the lengths that the first pass over the arguments
--   leaves for the second. Spsc is core/BoundedSPSCQueue.h, the queue of a logging thread; Transit is
--   backend/TransitEventBuffer.h, where the backend keeps decoded events; Backtrace is
--   backend/BacktraceStorage.h; Levels is core/LogLevel.h; Powers is core/MathUtilities.h; Errors is
--   core/QuillError.h.
-- - Examples: the theorems at concrete inputs, and runs of the definitions.
--
-- How the pieces meet: a program hands `run_benchmark` three callbacks; a run calibrates the
-- counter, spawns one producer for each thread with its share of the messages, joins them and prints
-- the report of all their samples. A producer's result is a function of what its thread reads (the
-- counter, the clock) and of its callbacks. The producers share only the counter of the start
-- barrier: Run/Defs computes them one after another, without their waits for each other; Barrier has
-- their interleavings, as a step relation on the threads' places, and Run/Ends puts the two
-- together.
--
-- In Quill, a log statement computes the size of its arguments (Codec, SizeCache), asks its queue
-- for as many bytes and encodes the arguments there; the backend reads the bytes from the queue
-- (Spsc), decodes them and puts the event into a buffer (Transit), from where it is written or kept
-- for a backtrace. The queue is a list of messages in three parts: those that the reader has seen,
-- those that are committed, and those that are written but not committed. Each operation of the two
-- threads is one step, and a run (Spsc/Runs) is any sequence of them. A position is a number modulo
-- 2^64, and its remainder by the capacity, a power of two, is where `_mask` leads it. A codec is a
-- record of its three functions; bytes of numbers are little-endian. A set or a map is given by its
-- elements in the order of iteration, and a decoded one by the insertions that build it. Whether an
-- allocation succeeds, the double arithmetic of the reader's batch, and whether a callback throws
-- are parameters.
--
-- Numbers are natural numbers with the wrap-around of the code's unsigned types written out. Busy loops
-- take their readings from a sequence and run on fuel; an `Outcome` is `waiting` if the fuel is used up.
-- The fuel is a parameter: it is enough if the clock advances far enough, or what the loop waits for comes
-- to hold, within so many readings, as with the clocks of the examples.
--
-- Not modelled: the branches for a build without BENCH_WITHOUT_PERF, which the common header always
-- defines; the libraries other than Quill, and the copy of fmt in quill/include/quill/bundled; of
-- Quill the unbounded queue, the codecs of wide strings and of the other headers of std/,
-- formatting, sinks, managers, the order of the events in the backend worker, and what LogMacros.h
-- generates; the memory order of the atomics, the steps being interleaved; the failure of memory
-- allocation other than in Quill's buffer of events, and of thread creation; the rest of tools/, and
-- the CMake files other than the lists of targets.
pub mod Prelude
pub mod Quill
pub mod Platform
pub mod Call
pub mod CallSite
pub mod Latency
pub mod Throughput
pub mod Tables
pub mod Examples
