-- ===== src/Lib.antt =====
-- swordfishd, a caching server: what is modelled of it, and what is proved.
--
-- The program. Clients send command lines over a connection. A worker (`Worker`) cuts its byte
-- stream into lines (`Tokenizer`), parses each into words (`Command`) and runs it on the storage
-- (`Storage`). The storage is a map from keys to shared values (`Dhashmap`, over the data of
-- `Index`), a queue of keys that wait to be filled (`Queue`) and statistics (`Stats`). A `get`
-- answers from the map, and asks for what is missing or too old by the queue. The filler thread
-- (`Filler`) takes keys from the queue, has a loaded library find their values, and adds them to
-- the map; where the map is full it expires entries first. The sizes come from an ini file
-- (`Config`), the names of severities are those of `LogLevel`. The server (`Server`) accepts the
-- connections and starts a worker for each. The daemon (`Daemon`) sets up the log (`Logger`) and
-- creates these objects, and deletes and creates them again when a signal makes it read the
-- settings again. The options (`Options`) name the settings.
--
-- Files and sources, with paths from daemon-src/.
--   Tokenizer   include/command_tokenizer.hpp, src/command_tokenizer.cpp
--   Command     include/command.hpp, src/command.cpp
--   Queue       include/queue.hpp, src/queue.cpp
--   Index       include/dhashmap.hpp: entries, shared and weak pointers, the two containers
--   Dhashmap    include/dhashmap.hpp, src/dhashmap.cpp: `get`, `add`, `expirate`, the counters
--   Cache       the map's promise: each call against a map on normalized keys (`Steps`), where each
--               answer comes from (`Runs`), and, while the clock never goes back, the calls against
--               a plain list of keys (`Notes`, `Replay`)
--   Locks       include/dhashmap.hpp, `read_scoped_lock` and `write_scoped_lock`, and the sections of
--               src/dhashmap.cpp under them, as steps of threads
--   Stats       include/stats.hpp, src/stats.cpp; in `Setters` threads call the setters
--   Storage     include/storage.hpp, src/storage.cpp; `_do` is `execute`; in `Crowd` threads call
--               `push_key`, and in `Reloads` a daemon makes one storage after the other
--   Worker      include/worker.hpp, src/worker.cpp: `on_read`
--   Server      include/server.hpp, src/server.cpp: `on_accept`, and the reads that the workers arm;
--               `complete_all` is the event loop over a list of completions
--   Filler      include/abstract_filler.hpp, src/abstract_filler.cpp; a round of `operator ()` is
--               `fill_round`, and its loop is `fill_rounds`; in `Ticks` it is one access at a time
--   System      src/daemon.cpp, `run`: the server, the filler's thread and the signal for an expiry
--   FillFunc    misc/fill_func/filler.cpp, the example of a loaded library, without a function
--               that says whether it is alive, for which the filler does not load it
--   Singleton   include/utils/singleton.hpp, with callers of `instance` as steps of threads
--   Config      include/cfg.hpp, src/cfg.cpp
--   LogLevel    include/log_level.hpp
--   Logger      include/logger.hpp, src/logger.cpp, and `init_logger` of src/daemon.cpp
--   Options     src/swordfish.cpp: `process_args` and `main`
--   Daemon      include/daemon.hpp, src/daemon.cpp: `create_server`, `reset_server`, `run`,
--               the signals and `daemonize`; a pointer is null, live or left behind by a deletion
--   Base        tests on numbers, lists, bytes, outcomes, machine integers, decimal numbers
--   Examples    concrete inputs
--
-- State and steps. A class is a record, and a method a function from its state to the new state
-- and its result. A call is one step, but in `Locks`, `Stats.Setters`, `Storage.Crowd`,
-- `Filler.Ticks` and `Singleton`, where an access is one. In `Server` the handlers of two
-- connections run one after the other, and in `System` the steps of the filler's thread come
-- between them in any order. `Run` has the ways in which a call can stop the process. A reading
-- of the clock is an argument. A shared pointer is an address with its text; a weak pointer locks
-- while an entry or a local variable has the address. `uint` and `size_t` wrap at 2 ^ 32 and 2 ^
-- 64.
--
-- Loops. The loop over the tokenizer runs on as much fuel as the string has bytes, and two more,
-- which is enough since each round takes two bytes. `add_item` runs on given fuel, as its loop
-- can fail to end; where it ends, more fuel than the map has entries is enough. In
-- `Storage.Calls` and `Filler.Ticks` its rounds are steps of their own, with no fuel. All other
-- loops are structural: the loops of the daemon and of the filler run over a list of rounds, and
-- the event loop over what it completes.
--
-- Parameters. The tree of the ordered index (`TtlIndex`), `boost::split` (`Splitter`), the
-- default hash, the loaded libraries, the map's mutex (`Mutex`), the property tree, what
-- `getopt_long` gives, the service of the server with its acceptor (`Service`), what `fork` and
-- `sigaction` give, `rand` and `boost::hash`, and the texts of numbers and durations. Whether the
-- increment of an erased iterator leads to the successor is `survives`: the container does not
-- say so. A run ends with `undefined_behaviour` at one that does not, and the results on runs
-- that can expire entries have that end as a case of its own, since they assume nothing of
-- `survives`. Lemmas that do assume it are taken at `mended`, where every increment leads on.
--
-- Not modelled: the backtrace, the order in which several threads of the event loop run handlers,
-- the sockets, the text formats of the log, `display_usage`, and that a set of values which grows
-- could hash an expired pointer again. In `Singleton` the writes to memory are seen in the order
-- of the steps. `Daemon` has the daemon's own pointers; what the service keeps of a deleted
-- server is in `Server.Restart`, and what the storages of its restarts share is in
-- `Storage.Reloads`.
pub mod Base
pub mod System
pub mod Tokenizer
pub mod Queue
pub mod LogLevel
pub mod Command
pub mod Index
pub mod Dhashmap
pub mod Stats
pub mod Locks
pub mod Cache
pub mod Storage
pub mod Worker
pub mod Server
pub mod Singleton
pub mod Config
pub mod Filler
pub mod FillFunc
pub mod Logger
pub mod Options
pub mod Daemon
pub mod Examples
