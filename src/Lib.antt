-- ===== src/Lib.antt =====
-- codex-pat: a model of the plugin that lets a host use Codex personal access tokens.
--
-- The program. `internal/pat` checks tokens against the Codex Auth API, turns them into stored
-- credentials, and saves, revalidates and parses those. It reaches the host through
-- `internal/hostrpc`. `internal/management` answers the management routes with it, and
-- `internal/plugin` dispatches the host's calls to the auth provider and to the management handler.
-- `cmd/codex-pat` exports the plugin through the C interface, and makes the calls back to the host.
--
-- The files, each with its part of the program:
--   Base, Exec, Json, Platform, Host   shared: bytes, the monad of fallible actions on a world, JSON
--               values, and the parameters, which are the machine and the host
--   Text        the functions of the Go library on text that the program uses: `strings.TrimSpace`,
--               `ToLower`, `ToUpper`, `EqualFold`, `Trim`, `filepath.Base` of Unix, the order of texts
--               and `sort.Slice` by one, the decoding of structs by `encoding/json`,
--               and decimal numbers
--   FileName    `FileName`, `parseOwnedFile` and their helpers (internal/pat/credential.go)
--   Errors      internal/pat/errors.go
--   Whoami      internal/pat/whoami.go
--   Credential  the credential, its checks and its stored form (internal/pat/credential.go)
--   Auth        `ParseAuth` and `RefreshAuth` (internal/pat/parser.go)
--   Resolve     `resolveFileName` (internal/pat/service.go)
--   Service     the rest of internal/pat/service.go: Service/Options makes a service,
--               Service/Watcher holds the wait for the host's file watcher, Service/Save saving,
--               importing and revalidating, Service/Save/Trace a host that keeps a record of what
--               it is given, and Service/Save/Written one that keeps a record of the storing
--               calls that have succeeded
--   Files       `replaceFile0600` of Unix and of Windows (internal/pat/permissions_unix.go,
--               internal/pat/permissions_windows.go)
--   HostRpc     `decodeEnvelope` in HostRpc/Envelope, `invoke` and the wrappers in HostRpc/Client,
--               `HTTPDoLimited` in HostRpc/Client/Limited, and one round of its read loop in
--               HostRpc/Stream (internal/hostrpc)
--   Plugin      the dispatcher (internal/plugin): Plugin/Dispatch is `Dispatch`, Plugin/Envelope
--               the envelopes
--   Management  the handler (internal/management): Management/Status is `statusForFile`,
--               Management/Assets the pages and `Register`, Management/Encoding the JSON
--   Abi         the C interface: Abi/Memory the memory and the host's table, Abi/HostCall
--               `rawHostCall`, Abi/Process the exports and the variables they share (cmd/codex-pat)
--   Wiring      `newDispatcher`: the parts put together to the program of a process, over the C
--               interface, a disk and a clock (cmd/codex-pat)
--   LoadSmoke   the load test's checks and its two loops, and in LoadSmoke/Run the run that starts a
--               host on temporary files (cmd/cpa-load-smoke)
--   Tests       runs on small inputs
-- A module below one of these that is named for a property proves it; the others model code.
--
-- How the code is represented. Text is a list of bytes, and an `int` of the source a natural number,
-- since no count, size or status of the program is negative. A `uint32` keeps its bounds. A time is
-- the number of nanoseconds since the zero time. A Go error is a value of `Error`, which keeps the
-- chain that `errors.As` walks; field names inside messages are left out. A method that calls the
-- host is an action of `Exec`: it maps a world to a result and the world after it. A Go map is an
-- association list. Where the source ranges over one, the model goes in the order of insertion,
-- which is one of the orders that Go may take; where `json.Marshal` writes one, by its keys.
-- A C pointer is a number, 0 is NULL, and an export is one step of the process.
--
-- Parameters. `Platform` holds what is not written out of the Go library: SHA-256, the Unicode
-- tables, URLs, the JSON scanner and printer, and the text form of times. `Host` holds the host's
-- callbacks, the file system and the clock, as actions on worlds of its own. The theorems hold for
-- every host, but for the end of a wait, which takes a clock that is not set back and timers that
-- last. Those about file names take
-- of SHA-256 that a digest is 32 bytes, and those about a stored credential that the scanner and the
-- clock read back the text that was printed. JSON objects are decoded by their keys in the order of
-- the text, without regard to case, as the library does.
-- `Memory` is the C allocator with cgo's copies, `HostApi` the host's functions, `Disk` the calls of
-- the package `os`, `Machine` the disk and the clock of a process, and `Shell` what the load test
-- calls; each comes with a record of what it promises, which the theorems that rely on it take. `Sdk`
-- and `Messages` are the names, the decoding and the encoding of the SDK's types.
--
-- Fuel. The wait for the file watcher (`awaitWatcherState`) takes fuel, one unit for each poll, and
-- a wait that runs out of it makes the save fail with an error that the code does not have. More
-- polls than fit into the timeout, and one round more, are enough: the default timeout is 5 seconds
-- and the default interval 25 milliseconds, so 200 polls fit, and 202 rounds are enough. The theorems
-- about saving hold for every amount of fuel: they speak of saves that succeed, and of the calls that
-- any save makes. The read loop of `HTTPDoLimited` takes fuel, one unit for a read; where that runs out
-- it has no reply, and the service gets an error.
-- Where the context has a deadline and each host call takes time, one unit more than there is time is
-- enough. The loops of the load test go along a list of what each round meets, and have no result
-- where they still wait at its end.
-- `createPrivateTemporaryFile` counts its attempts down from 100.
--
-- Not modelled: the reading of the load test's command line; the text of the embedded pages; locks,
-- since one call runs at a time; nil receivers; panics, but for those of the management that the
-- dispatcher recovers from, and those of a dispatcher that the C interface recovers from; and the
-- text of the error values inside the program. The JSON of the SDK's types is a parameter, and headers
-- that the host or a caller sends are left out.
pub mod Base
pub mod Json
pub mod Platform
pub mod Text
pub mod FileName
pub mod Errors
pub mod Whoami
pub mod Credential
pub mod Auth
pub mod Exec
pub mod Files
pub mod Host
pub mod Resolve
pub mod HostRpc
pub mod Service
pub mod Plugin
pub mod Management
pub mod Abi
pub mod LoadSmoke
pub mod Wiring
pub mod Tests
