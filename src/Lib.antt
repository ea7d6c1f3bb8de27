-- ===== src/Lib.antt =====
-- aDaBt: a model of the database's core in which its promises are proved.
--
-- The program is a Rust workspace under crates/. The parts modelled here, bottom up:
--
-- Core (crates/adabt-core/src): the vocabulary of the other crates.
--   Core/Value, Core/Order, Core/Arith: value.rs. A value is one of eleven variants; `exact_units`
--     reads the exact numbers, `cmp_exact` compares those in 128-bit integers, and everything else
--     that is numeric is compared as a float. `rescale` and `checked_arith` compute on decimals.
--   Core/Float: the `f64` bit patterns behind value.rs. The conversion of integers and the
--     canonical pattern are definitions; the rounding operations (`powi`, sum, difference, product
--     and quotient) are the fields of `FloatOps`, a parameter of every definition that uses them.
--   Core/Names, Core/Record: record.rs. A record is a vector sorted by field name; `slot` stands for
--     the binary search, by what it answers on a sorted vector.
-- Ir (crates/adabt-ir/src): predicates.
--   Ir/Truth, Ir/Expr, Ir/Like: expr.rs, the evaluator in three-valued logic and LIKE patterns.
--   Ir/Constraints: expr.rs, `equality_constraints`, which index lookups rely on, and
--     `referenced_fields`, which projections rely on.
--   Ir/Vm: vm.rs, the compiler to a flat program and the machine with two stacks. The files below it
--     are the proof: Reach and Turns on the machine's rounds, Emits on what the compiler appends,
--     Values, Items, Folds, Parts, Jumps and Leaves on one construct each, Correct and Agree on all.
-- Storage (crates/adabt-storage/src).
--   Storage/Varint: varint.rs. A buffer is a list of bytes.
--   Storage/Version: version.rs. An operation of the tracker is one atomic step; `happen` is what a
--     client does, and a run is a list of such events from the new tracker.
--   Storage/Page: page.rs. The byte array is a map from offsets to bytes. What would index past
--     the page's end is a panic of the code, `panicked` here. Bytes, Header, Read and Ready
--     hold the lemmas on reads after writes; Insert, Delete and Seal the theorems; Checksum and
--     Compact more of the operations.
--   Storage/LittleEndian, Storage/Directory: directory.rs. A file is the list of its bytes; Parts and
--     RoundTrip are the proof that what is written is read back.
--   Storage/Compress: compress.rs. The functions of the LZ4 library are the fields of `Lz4`, a
--     parameter.
--   Storage/Utf8: the UTF-8 of Rust's strings, which the formats below store. Storage/Reader: the
--     bounds-checked readers of wal.rs and codec.rs, a reader being the bytes it has left.
--   Storage/Wal: wal.rs. Entry is the payload of an entry, Frames what stands around it in a segment,
--     with Torn and Recover on a segment cut off by a crash. Buffer is the standard library's
--     `BufWriter`, with its 8 KiB; Log is the log itself, its segments and its operations, where a
--     segment has the bytes in its file and how many of them are on stable storage, and the log what its
--     writer still holds. Reading goes to the files. A crash leaves of each file any front that is no
--     shorter than what was synced. Files that were created or removed are taken to be so behind a crash.
--     Kept, Parts and Found are on what segments hold and what is read of them, Refines on the list of
--     entries that stands for a log, Steps, Appends and Runs on its operations, Reopen on opening it again.
--   Storage/Tlv: codec.rs, the self-describing form of a value. Fits says which values the types of
--     the code hold, and Deep what happens to those nested too deep.
-- Engine (crates/adabt-engine/src).
--   Engine/ExprCodec: exprcodec.rs, the stored form of a predicate, which holds its literals in the
--     form of codec.rs.
--   Engine/Unique: unique.rs, the set of unique constraints and its file, read back by what
--     Storage/Directory has for its own file of the same shape.
-- Index (crates/adabt-index/src): lib.rs, the id lists under the keys of a hash or B-tree index and
--   the counters beside them. The key map is a list of entries, over keys of any type with the equality
--   and the size that `Keys` gives; `value_keys` are those of values. Equality of values of several
--   numeric types is not transitive, so that what is proved asks for values that compare lawfully,
--   which Values shows of texts. The
--   size of a `Value` itself is an argument.
-- Opt (crates/adabt-opt/src).
--   Opt/Registry: registry.rs. The map of optimizations is the list of their metadata in the order
--     of registration, since a name is registered once.
--   Opt/Registry/Dependencies: the depth-first search of `dependency_order`; Fuel says that it ends,
--     Ordered, Cycles and Answers what it answers.
--   Opt/Experiment: experiment.rs, the life of an experiment from proposed to promoted or reverted.
--     The step to 100 percent is a promotion, as in `advance`, and a reason for an abort is told apart
--     by its kind and its numbers in place of its text. `Experiment/Events` are any calls of its
--     operations, in any order, and the engine's assignment of the divergences that a report counted
--     (`fold` in crates/adabt-engine/src/experiment.rs).
-- Telemetry (crates/adabt-telemetry/src).
--   Telemetry/Histogram: histogram.rs; `record` is `record_value` here, and the target count of a
--     percentile, which the code computes in floats, is an argument.
--   Telemetry/Sketch: sketch.rs, the count-min sketch with decay.
--
-- Numbers: a `u64`, a `usize` and a byte are native numbers with the wrap-around of the code written
-- out; `i64` and `i128` are the integers of Prelude/Int, with the checked operations on the range
-- of `i128`.
--
-- Fuel: the machine's loop has a round more than the program has instructions, since jumps only go
-- forward; the varint loops have 10 rounds, since each takes 7 of at most 64 bits; loops over the bytes
-- of a text or a segment have as many rounds as there are bytes; the search for the dependency order
-- has a level more than there are names, since each level enters one. The decoders of values and
-- predicates recur on the levels of nesting that the code allows. The theorems on them say that this
-- is enough.
--
-- Not modelled: hashing, display and conversion traits; heap, pager, record layouts and catalogues; the
-- file system's calls around the log and the files; bitmap indexes and ranges over an index, planner and
-- executor; the optimization controller; the engine's threads; the rest of
-- telemetry, the server, bindings, command line and benchmarks.
pub mod Prelude
pub mod Core
pub mod Engine
pub mod Index
pub mod Ir
pub mod Storage
pub mod Telemetry
pub mod Opt
