-- ===== src/Lib.antt =====
-- kairos-p2p-engine: a network of nodes that store the encrypted chunks of files, which nobody can
-- read before their release date, and of bootstrap servers that know the nodes and the manifests.
--
-- A node cuts a file into blocks (internal/service/file_management.go, StreamAndUploadFile). A crypto
-- worker encrypts each block under an AES key, time-locks the key to a round of the drand beacon,
-- splits the block by Reed-Solomon and the locked key by Shamir's scheme, and makes chunks that are
-- sent to nodes which the bootstrap server has handed out. The manifest of the chunks goes to the
-- bootstrap server. StreamReconstruct reads a manifest, gathers chunks and reverses these steps.
-- Bootstrap servers hold active nodes and manifests and align them by a delta synchronisation;
-- background workers clean the databases.
--
-- Files and the code they model (paths from the repository's root):
--   Models        internal/models/model.go: the structs, field by field
--   Config        internal/config/config.go: the package variables as a record
--   Badger        the interface of BadgerDB and what it documents; Badger/Memory is an instance
--   Database      internal/database/badger.go: makeKey, GetData, PutData, DeleteKey, ExistsKey,
--                 GetAllData, GetAllKeys, IterateAndProcess, RunValueLogGC
--   Crypto        internal/crypto/keys_management.go; Crypto/Library has the libraries it calls
--   Process       what a process has: its database, keys, configuration; signing and checking;
--                 Process/Json is encoding/json for the message types
--   Sync          internal/service/synchronization.go and the two /sync handlers of
--                 internal/api/bootstrap_api.go: performSync is perform_sync, whose network is the
--                 function `Post`, and sync_routes is a peer that answers it
--   Bootstrap     internal/api/bootstrap_api.go: the registry of nodes and the manifests;
--                 Bootstrap/Life a server of cmd/k-bootstrap/main.go from its start to its end
--   Cleanup       internal/service/clean_database.go: one tick of each worker; Cleanup/Retention the
--                 rules for what is removed, in numbers
--   Files         internal/service/file_management.go: Files/Blocks the reading loop, Files/Encrypt the
--                 crypto workers, Files/Pick pickRandomItems, Files/Sending the upload workers
--                 one job after the other and the rollback, Files/Workers the same workers side by
--                 side as a step relation, Files/StreamAndUpload the upload as a whole,
--                 Files/Reconstruct StreamReconstruct;
--                 Files/Coding has the interfaces of Reed-Solomon, Shamir's scheme and tlock
--   NodeServer    internal/grpc/server/node_server.go, and RequestChunk of
--                 internal/service/file_management.go
--   Client        the node's signed calls of a bootstrap server: internal/service/subscription.go, and
--                 five functions of internal/service/file_management.go; Client/Served answers them
--                 by the routes of cmd/k-bootstrap/main.go (Bootstrap.bootstrap_routes)
--   Network       one bootstrap server and the nodes as one state, and the calls in it; an upload
--                 and a download through it, with the upload's workers in turn and side by side
--   NodeApi       internal/api/node_api.go: the handlers on the node's database; NodeApi/Files the
--                 worker of PutFile, GetFile and DeleteFile; NodeApi/Life a node of
--                 cmd/k-node/main.go, with its routes, from its start to its end
--   Metrics       GetNodeMetrics and GetBootstrapMetrics of internal/api
--   Explorer      cmd/k-explorer/main.go
--   Cli           cmd/k-cli: the commands put, get and delete
--   Heartbeat     the subscription loop of cmd/k-node/main.go, with the heartbeat monitor
--   Pool          internal/service/grpc_pool.go
--   Startup       the start of cmd/k-node/main.go and cmd/k-bootstrap/main.go, and OpenDatabase
--   Base          helpers: byte strings, lists, maps, results, 64-bit words
--   Examples      instances of all interfaces, and runs on them
--
-- A handler takes the state of the database and the request and gives the new state and the
-- response. A goroutine's effect on the database is part of the step that starts it. Random draws,
-- readings of the clock and answers of other processes are arguments. BadgerDB, the cryptographic
-- primitives, the codes, JSON and the file system are interfaces with laws as hypotheses, each of
-- which Examples instantiates; the text fields of a message are taken to be valid UTF-8, which
-- encoding/json gives back unchanged. Logging is left out.
--
-- Numbers: counts and sizes are natural numbers; an int64 that is subtracted or compared is its
-- 64-bit pattern (Base/Words), and the sums of Metrics and Explorer wrap around. The division of
-- float64 in the allocation of nodes is modelled for counts below 2 ^ 53. Fuel: the value-log collection runs on fuel, enough when it exceeds
-- the garbage; the reading loop runs on fuel, enough when it exceeds the size of the file.
--
-- Files/Workers interleaves the workers at each call and each access of what they share; a call is one
-- step, with all that the called node does. The jobs come from the crypto workers in the order of a list,
-- which may be any; the loop that reads the file closes their channel in the end, or stops before. Bootstrap/Life and NodeApi/Life take a handler or a tick as one event.
--
-- Not modelled: the interleaving of handlers within one process at single accesses of its database;
-- listening on ports and signals; the order in which a process closes its servers; the time-out of the
-- HTTP client; negative counts in a request for nodes; in Cli, headers that are not ASCII. The generated gRPC stubs and the flags of the command line, which are a library's, are
-- left aside.
pub mod Base
pub mod Models
pub mod Badger
pub mod Database
pub mod Config
pub mod Crypto
pub mod Process
pub mod Sync
pub mod Files
pub mod Cleanup
pub mod Bootstrap
pub mod Client
pub mod NodeServer
pub mod Network
pub mod Examples
pub mod Metrics
pub mod NodeApi
pub mod Explorer
pub mod Heartbeat
pub mod Pool
pub mod Startup
pub mod Cli
