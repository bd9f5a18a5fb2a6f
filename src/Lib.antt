-- ===== src/Lib.antt =====
-- gc-scope reads the garbage-collection statistics of running CPython processes: it resolves where
-- an interpreter keeps them (remote_debugging), polls them (monitor), and reports what each
-- generation did, exactly where CPython's cumulative counters allow it.
--
-- Which file models which part:
--   GcStats      src/remote_debugging/gc_stats.rs, and `GcItemLayout` of
--                src/remote_debugging/offsets/offset_table.rs: one decoded entry, read by field name
--                from its raw bytes.
--   Cursor       src/monitor/cursor.rs: `RingKey`, `Lifetime` and `RingObservation` in Cursor/Ring,
--                `Cursor` and its methods in Cursor/Defs. A method takes the cursor and returns
--                the new one; `admit` is the loop `admit_all` over `admit_one`, and the body of the
--                loop is `retain` followed by `classify`. Cursor/History is the step relation of
--                the two methods by which the monitor changes a cursor, `admit` and `forget`.
--   Loss         src/monitor/loss.rs: `account`, its counts and its pauses.
--   Statistics   src/monitor/statistics.rs: `summarize`, its rows and blocks.
--   Convert      src/monitor/convert.rs and src/monitor/trace_event.rs: `convert_record`, with the
--                phases as the table that the code has.
--   Exporters    src/monitor/exporters/chrome.rs and src/monitor/exporters/timing.rs: the encoding of
--                events and `ChromeTraceExporter`, whose file is the text written to it. The
--                grammar of JSON in Exporters/Json is independent of the encoder.
--   Context      src/monitor/context.rs: `MonitorContext` with `poll` and `mark_died`. What a session
--                answers in a poll is its argument, and the exporter is the log of what it is told.
--   RunLoop      src/monitor/run_loop.rs: the wait policies and the loop. A run is the list of its
--                rounds, each with what the system answers; the run is interrupted where it ends.
--   Memory       src/memory/reader.rs: reads through a handle. `Machine` is what the system answers.
--                src/memory/dump.rs and src/memory/regions.rs in Memory/Dump.
--   Process      src/memory/process.rs, src/remote_debugging/check_interpreter.rs and the parts of
--                src/memory/binary.rs that classify an image and list modules. `Images` is what
--                goblin finds in an image.
--   Session      src/remote_debugging/session.rs: the walk over the interpreters in Session/Walk, and
--                `PySession` and the cache of layouts in Session/Defs, `attach` and `revalidate` in
--                Session/Attach, the reading of stats in Session/Reads. `none` and `failed` are an
--                error, `panic` a panic; the cache is an argument and a result.
--   Snapshot     src/snapshot/collect.rs: the entries of a region as they are shown, the figures of one
--                snapshot, and `collect_gc_stats`.
--   OffsetTable  src/remote_debugging/offsets/offset_table.rs: the geometry of a build's stats region
--                and `decode_gc_stats`, where `none` is the panic of a slice out of range.
--   Version      src/remote_debugging/version.rs: the version grammar and its printer; the image
--                scanner in Version/Scan; `detect` in Version/Detect, over a process and files that
--                are parameters.
--   Registry     src/remote_debugging/offsets/mod.rs: the registered layouts, the aliases, the fallback
--                and `read_offsets` with its cache, over a runtime whose reads are parameters. In
--                Registry/Tables the choice of a shape and `to_offset_table`, over the values that
--                the accessors of the generated structs return; the entry counts of a ring are written out
--                twice there, as in the code. Registry/Legacy is
--                src/remote_debugging/offsets/pre_3_13.rs.
--   Base         shared names, `i64` and `u64` with their wrap-around, Rust's maps and stable sort.
--   Fixtures     data of the tests.
--
-- How they interact: a poll decodes entries (GcStats) and hands them to the cursor, which keeps one
-- accumulator per ring and returns the entries not yet reported. At the end of a run the summary
-- reads the cursor's observations, and the account of each accumulator prices what was lost. Each
-- reported entry is converted to trace events, which the exporter writes to a file. The entries are
-- decoded from a region that the offset table places; a build's table follows from its version and the registry of layouts. A
-- session is attached to a process whose runtime was found, and reads that region of each
-- interpreter; the run loop polls the processes, whose answers it takes as they come.
--
-- Integers: `i64` is ℤ with `wrap_i64` at each sum and difference, as in a release build; counts of
-- type `u64` wrap by `% 2 ^ 64`. Maps are association lists: the order of a `HashMap` is never
-- observed by the code, that of a `BTreeMap` is kept; the order in which the run loop iterates a
-- `HashSet` is an input of a round. All loops are structural but two, which have fuel: decimal
-- printing has 20 digits, which an integer of 64 bits does not exceed, and the walk over the
-- interpreters has more rounds than there are addresses of 64 bits, each of which visits a new one.
--
-- Not modelled: floating point, which is the parameter `Float64` of Base/Float (a type with the
-- operations that the code uses, of which only the saturation of `as i64` is assumed), and whose
-- display in a trace is a parameter as well; the system's answers, goblin's parsing of binary images and the generated structs, which are parameters;
-- the terminal interface and the command line, which are input and output; the summary's table and
-- JSON; log and error texts.
pub mod Base
pub mod Fixtures
pub mod GcStats
pub mod Context
pub mod RunLoop
pub mod Convert
pub mod Exporters
pub mod Cursor
pub mod Loss
pub mod Memory
pub mod OffsetTable
pub mod Process
pub mod Registry
pub mod Session
pub mod Snapshot
pub mod Statistics
pub mod Version
