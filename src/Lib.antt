-- ===== src/Lib.antt =====
-- LensGuard watches which applications use a camera. This library models its Rust code and
-- proves what makes it correct.
--
-- The program's parts. The observer (observer/) is a privileged process: a kernel program
-- reports system calls on video devices, the observer turns them into capture events, drops
-- those of media brokers, and serves the rest on a socket. The daemon (daemon/) connects to
-- that socket, runs each event through a session machine, asks a resolver for the
-- application's name, reduces the events to a state, and publishes what changed on the session
-- bus.
--
-- Which file models what:
--   Core/Model       crates/camera-core/src/model.rs, error.rs: identifiers, cameras, sessions
--   Core/Capture     crates/camera-core/src/v4l2.rs: event and message types, `validate`
--   Core/Session     crates/camera-core/src/v4l2.rs: `session_from_event`, `stable_node_id`
--   Core/Machine     crates/camera-core/src/v4l2.rs: `V4l2SessionMachine`, its operations
--   Core/State       crates/camera-core/src/state.rs, event.rs: `MonitorState`, `MonitorSnapshot`
--   Resolver/Request crates/camera-app-resolver/src/resolver.rs: the hints of a lookup
--   Resolver/Cache   crates/camera-app-resolver/src/resolver.rs: `ApplicationResolver`, its cache
--   Resolver/PlainText, Resolver/Identity the same file: `plain_text`, `resolve_uncached`
--   Resolver/DesktopIndex crates/camera-app-resolver/src/desktop_entry.rs: `find`
--   Resolver/DesktopEntries the same file: its parser, `from_paths`, `from_standard_paths`
--   Resolver/Flatpak crates/camera-app-resolver/src/flatpak.rs
--   Resolver/Procfs  crates/camera-app-resolver/src/procfs.rs: `read_process`
--   Daemon/Application daemon/src/application.rs: `run_application`, `reduce_and_reconcile`
--   Daemon/Wire      daemon/src/observer.rs: `write_message`, `read_message`, `ObserverError`
--   Daemon/Source    daemon/src/observer.rs: `ObserverEventSource`
--   Daemon/Backoff   daemon/src/backoff.rs: the delay before a new attempt
--   Daemon/Backend   daemon/src/backend.rs: the supervisor; Observed is the observer's factory
--   Daemon/Config    daemon/src/config.rs: `parse_from`
--   Daemon/Runtime   daemon/src/runtime.rs: the publisher and how `run_daemon` ends
--   Daemon/Startup   daemon/src/runtime.rs: how it starts, and the service without a backend;
--                    crates/camera-dbus/src/service.rs: `session`
--   Daemon/Entry     daemon/src/main.rs: the commands, what they print, the exit code
--   Dbus/Dto, Dbus/Service crates/camera-dbus/src/dto.rs, service.rs: the object on the session bus
--   Observer/Policy  observer/src/policy.rs: brokers
--   Observer/Bpf     observer/src/bpf.rs: `parse_kernel_event`; Reader: `attach`, its readers
--   Observer/Identity observer/src/identity.rs: start times, cameras, device numbers
--   Observer/Lookup  observer/src/main.rs, policy.rs: `build_candidate`'s lookups in files
--   Observer/Messages observer/src/main.rs, ipc.rs: the shared status, what is sent to whom
--   Observer/Events  observer/src/main.rs: `process_kernel_events` and what it sends
--   Observer/Server  observer/src/ipc.rs: the socket, `serve_client`; Channel: its receiver
--   Observer/Startup observer/src/main.rs: `main`, `classify_bpf_error`
--   System           the observer, its server, the daemon's client and its state, put together
-- The children of a module hold its theorems. Prelude, Order, Decimal, OrderedMap, Paths,
-- Strings, Sorting and Io are the shared ground: texts as lists of code points, derived orders,
-- decimal printing, `BTreeMap` by its sorted entries, paths by their components, what the code
-- uses of `str`, stable sorting, and the answers of the file system. Tests holds concrete runs.
--
-- How state is modelled: a `&mut self` method is a function from the old state to the result
-- and the new state. A `Result` is `Result`, the `?` operator a `do` block. Numbers are
-- natural numbers; the identifiers, times and counts that these parts use are only compared,
-- copied and printed, so their width plays no part, and where a width does, it is written out.
-- File descriptors and results are integers.
--
-- What stands outside: `serde_json` is a codec with the law that it reads back what it wrote;
-- the socket is the bytes that have arrived and the error that a read past them meets, and where a
-- write fails, if one does; the broadcast channel is what its documentation says of it; the
-- resolver's lookup, and whether it is late or panics, are arguments of each round of the
-- pipeline; the bus takes a number of signals; the file system is a record of its answers at one
-- moment; what the system, the eBPF library and the bus answer to the calls that start the two
-- programs are arguments too. No definition uses fuel: the loops of the code run over the finite
-- lists of inputs that they meet, and are structural recursion on them. The number in
-- `ancestors_from` is the ten that the code itself sets as a limit.
--
-- How the parts meet: the observer's server and the daemon's client are the two ends of one
-- socket, the client's machine follows the observer's events, the pipeline follows the client,
-- and the object on the bus follows the pipeline.
--
-- Not modelled: that tasks and threads run at the same time, the loop that accepts clients, the
-- kernel program, which is in C, the eBPF library, logging, the traits and constants without
-- code, the desktop extension, packaging.
pub mod Prelude
pub mod Order
pub mod Decimal
pub mod OrderedMap
pub mod Paths
pub mod Core
pub mod Resolver
pub mod Daemon
pub mod Dbus
pub mod Observer
pub mod System
pub mod Tests
pub mod Strings
pub mod Io
pub mod Sorting
