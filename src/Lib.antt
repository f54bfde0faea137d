-- ===== src/Lib.antt =====
-- A verification library for simferret, a deterministic fault-injection tester that runs a
-- workload in a guest, cuts its network or kills its process at planned points, and checks the
-- recorded events.
--
-- The program's parts. A scenario (crates/simferret/src/scenario.rs) and a seed give a choice plan:
-- where the faults stand among the requests. The host sends commands to the guest agent
-- (crates/simferret/src/agent.rs) over the control protocol (crates/simferret/src/protocol.rs); the
-- agent configures the network, sends requests and drives the workload process, and answers with
-- numbered event frames. From the events, crates/simferret/src/assertions.rs evaluates a network
-- run, and crates/simferret/src/checker.rs a workload run.
--
-- The files.
--   Prelude: shared names, Boolean tests, searches in lists, text as bytes, `io::Result`.
--   Workload: crates/simferret/src/workload, the packaged workload. Of tree.rs, Path holds the layer
--     paths, Tree the tree and its operations, Tree/Encode its canonical encoding,
--     Tree/Template the guest template, and Symlinks the checks of links. Of spec.rs, Launch holds
--     `LaunchIdentity`, Fields the checks of fields, Contract `validate_launch_identity`, Directory
--     `normalize_working_directory`, and Spec `WorkloadSpec::parse`. Of mod.rs, Limits holds the
--     limits, Elf `validate_static_elf`, and Overlay `validate_overlay_compatibility`. Of store.rs,
--     Assembly holds `binary_graph`, `binary_tree_and_launch` and the replay of a binary closure.
--     Of oci.rs, Layer holds `apply_layer` and `split_marker` (Layer/Removed is about the tree's
--     removals), and Image `normalize_launch`. Utf8 is
--     the standard library's `str::from_utf8`.
--   Protocol: crates/simferret/src/protocol.rs. Event, Command and Process hold its types, Hex
--     `encode_bytes` and `decode_bytes`, Framing the readers and writers of frames. Violation holds
--     the messages that the two checkers format, one constructor for each format string.
--   Assertions: crates/simferret/src/assertions.rs. Evaluate is `evaluate`, one function for each
--     of its searches; Searches and Window invert each search; Soundness and Completeness are about the report.
--   Scenario: crates/simferret/src/scenario.rs. Validate, Random (`SplitMix64`), Choices (both
--     `choices`), Peer (the address test); Placement and Requests hold the theorems.
--   Agent: crates/simferret/src/agent.rs. Machine is `Agent`, `emit` and the interface of the process
--     runtime, Dispatch is `dispatch` and `command_loop`, the others are about them.
--   Checker: crates/simferret/src/checker.rs. Streams is `InvocationStreams`, Trace `WorkloadTrace`
--     and its `push`, Views what is read of a trace; Utf8 is the standard library's
--     `String::from_utf8_lossy` by its documentation. ProcessSafety, Responses, Faults and Evaluate
--     are `process_safety`, `response_integrity`, `fault_properties` and `evaluate_workload`, with
--     their early returns in Returns. Phases and Answered are about the answers that
--     `fault_properties` takes. Lines, Reading, Origin, Orderly and RecordOrder are about the
--     trace, Order and SafeRun about `process_safety`, Integrity, Transitions and WorkloadRun about
--     the other three.
--
-- How the code is read. A step of the agent takes and returns its whole state and an `io::Result`;
-- what was sent before a failure stays sent. The answers of the operating system and of the process
-- runtime are arguments. Of an `io::Error` the kind and the error number are kept. A log message or
-- an assertion's detail is a constructor with the values that it prints. Text is its UTF-8 bytes.
-- Unsigned numbers are natural numbers; where the code wraps, saturates or checks, the model writes
-- out the bound. The agent's `next_event_id` is a `u64` that one run cannot exhaust, and has no bound
-- here. A panic of a choice plan is `none`. A reader is the list of the outcomes of its reads,
-- and the writer of acknowledgements the list of the outcomes of its writes and flushes.
-- JSON, TOML and SHA-256 are arguments: of the frames' JSON the record `IsJson` says what is asked,
-- and the methods of a JSON value that an image's config is read by are the record `JsonOps`.
-- A workload's source directory is a function from a locator and a limit to what the read returns.
-- A `BTreeMap` is the list of its entries in the byte order of the paths. `usize` has 64 bits.
-- Loops are structural recursion, on the bytes, frames, entries or rounds that are left. Fuel stands
-- in four places: `decimal` has the number plus one, which exceeds the number of its digits;
-- `ancestors` has the length of the path plus two, and every parent is shorter; the padding of an
-- archive has three, the most zeros up to a multiple of four; and the walk along a symbolic link has
-- one round for each component and 4096 for each of the forty links that it may follow, since a
-- target of 4096 bytes at most brings no more components than it has bytes.
--
-- What is not modelled: crates/simferret/src/run.rs, runtime.rs, vm.rs, fixture.rs, guest.rs and
-- main.rs: orchestration, processes, sockets and files of the host. Of workload/ the reading of an
-- OCI image (oci.rs but for the application of a layer and the launch), the opening of files
-- (root.rs, `WorkloadSpec::read`), and of store.rs what reads and writes the store (`assemble`,
-- `load`, `publish`). Of agent.rs the serial buffer and the poll loop are left out, and of
-- protocol.rs the log texts of `describe` and `kind`.
pub mod Agent
pub mod Assertions
pub mod Checker
pub mod Prelude
pub mod Protocol
pub mod Scenario
pub mod Workload
