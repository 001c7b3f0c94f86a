-- ===== src/Lib.antt =====
-- AgentVM: a daemon that keeps VM sessions on one host. `MetadataStore` holds sessions, VMs,
-- proxies, shared folders, resource allocations, the audit log and network rules in SQLite;
-- `CapacityManager` decides which VMs the host can take, and rebuilds its allocations from the
-- store's records at startup; `BridgeManager` gives every session an interface name and a MAC
-- address; `VMManager` keeps VM records in the store and reports their status; `CPUMap` chooses
-- the cores of a VM; `CloudInitManager` writes the seed of a VM; the configuration is loaded
-- from a file and the environment; the daemon wires them up with a metrics collector and an HTTP
-- application.
--
-- Files:
-- - Base: lists, options, comparison of numbers and texts, integers.
-- - Python: exceptions as a result type, what can be raised (Failing, and of numbers
--   Failing/Number), methods on a state (Exec) and requests in turn (Requests), dicts in
--   insertion order, strings as code points, values of JSON and of `int()` and `str()`, lines
--   and words of a text, IPv4 addresses and networks (Ip), paths (Paths), `shlex.quote` and the
--   words and here-documents that a POSIX shell reads (Shell).
-- - Sql: tables, and the statements that the store runs on them; a stable ORDER BY.
-- - Store: src/agentvm/db/store.py. Schema has a record for each row, Rows what is written to
--   and read from one; Connection has the connection; Sessions, Vms, Records (proxies, folders,
--   allocations) and Logs (audit log, network rules) have a function for each method, with its
--   name. Calls has the methods as data; Calls/Closed is about a store
--   that is not connected; Sessions/Promise and Vms/Promise have the tables that their methods
--   promise. The others are proofs.
-- - Capacity: src/agentvm/host/capacity.py. Readings has what is read of the host, Reconcile the
--   rebuilding from a store's records. The others are proofs; Errors is about what that can
--   raise, Unordered and Reordered about the order of the records; Ledger is what the
--   allocations promise.
-- - Bridge: src/agentvm/net/bridge.py. The MAC factory is any state with a draw; Mac has the
--   default factory, its random octets given; Leases is what the manager promises.
-- - CpuMap: src/agentvm/host/cpu_map.py. CpuList reads and writes CPU lists; the others are
--   proofs.
-- - Config: src/agentvm/config.py. Coerce has `_coerce_value`, Records the dataclasses, Sections
--   their loading with the defaults, Validate the tests, Config itself `load`; Valid says what a
--   valid configuration is, Environment and RoundTrip where a value comes from, Raises and
--   Errors what can be raised, Defaults what is loaded without a file.
-- - CloudInit: src/agentvm/storage/cloud_init.py. Commands and Bootcmd have the proofs on the
--   shell commands, Lifecycle and Returned those on the files.
-- - Storage: src/agentvm/storage/manager.py. Session: src/agentvm/session/manager.py.
-- - VmManager: src/agentvm/vm/manager.py. Status has what a record and a runtime state say of a
--   VM, Lifecycle the manager over the metadata store.
-- - Metrics: src/agentvm/observe/metrics.py. Api: src/agentvm/api/app.py.
-- - Daemon: src/agentvm/daemon.py, its state, its signal handler and the shutdown; Run is `run_daemon`.
--   Shutdown has the proofs on the handler, Startup, Failure and Loaded those on the startup,
--   Restart what a daemon knows of the VMs created before it, Again a run up to its shutdown and
--   the startup after it.
--
-- A method of a store is a function from a state to its result and the next state: a raised
-- exception is a value. The clock, the outcomes of mkdir, of
-- `exists`, of `sqlite3.connect` and of setting the database up, SQLite's text of a float, what is read of /proc and os.statvfs,
-- the MAC factory, the answers of a store's queries, Python's `float` and `repr`, the content of
-- sysfs, `yaml.safe_load` and `yaml.safe_dump`, the outcomes of genisoimage, of writes of
-- making a uvicorn server and of its `serve`, of `signal.signal`, and the reading of IPv6 texts are arguments. The shutdown is one
-- step, since its awaits only let signals in, which find the flag set.
--
-- Bounds and fuel: the MAC loop runs at most 1000 rounds, as in the source. `decimal n` emits
-- digits with n rounds of fuel, which is enough since each round divides by ten. A SQLite
-- integer is refused outside 64 bits, as its binding does. All other recursion is on the data.
--
-- Not modelled: WAL mode, indices, durability and concurrent access of the database file; the
-- layout of JSON text (a `data` column is represented by what `json.loads` reads from it; a
-- nested list or dict and a float by its `str`); case and digits outside ASCII; the limit of
-- 4300 digits of `int()`; logging, but for the metrics', and the texts of errors; a
-- statement that SQLite fails by itself, as for a full disk or a lock, after the database is set up;
-- FastAPI and uvicorn, which serve the HTTP application. While uvicorn serves, its own handlers
-- may stand in place of the daemon's: what is said of signals is said of the calls of
-- `_signal_handler`. A path is known by its components: links and `..`
-- are not resolved. The shell is read only as far as the commands go: a character with another
-- meaning outside quotes is not read at all.
pub mod Base
pub mod Python
pub mod Sql
pub mod Config
pub mod Storage
pub mod Session
pub mod Store
pub mod Capacity
pub mod CpuMap
pub mod Bridge
pub mod CloudInit
pub mod VmManager
pub mod Metrics
pub mod Api
pub mod Daemon
