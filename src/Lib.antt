-- ===== src/Lib.antt =====
-- A model of the UpCloud CSI driver: the controller server and the service that it drives, the node
-- server and the filesystems of its host, and the plugin that puts them together.
--
-- The driver serves the Container Storage Interface to Kubernetes. Its controller
-- (internal/controller) answers the RPCs that create, delete, attach, expand, list and snapshot
-- volumes. It calls the `Service` interface (internal/service/service.go), which `UpCloudService`
-- (internal/service/upcloud_*.go) implements over the client of the UpCloud API, and which the
-- instrumented service (internal/service/metrics.go) wraps to count the calls. Its node server
-- (internal/node) stages, publishes and grows volumes on a host, through the `Filesystem` interface
-- (internal/filesystem/filesystem.go), which `LinuxFilesystem` implements with the tools of the host.
-- The plugin (internal/plugin) makes the servers that its mode asks for and puts them behind one
-- gRPC server (internal/server), whose interceptors count and correlate the calls (internal/logger).
--
-- The files and the code that they follow:
--   Base                 numbers, `int64` wrap-around, lists and maps that all parts share
--   Go                   errors (`errors.Is`, `errors.As`, `status.Error`), calls that change a
--                        state and may fail or panic, `strconv.Atoi` and `fmt.Sprint`
--   Api, Csi             the fields of the SDK's types and of the CSI messages that the driver uses
--   Service              internal/service/service.go: the interface, as a record of operations
--   Service/Client       the API client and the mutexes of internal/service/upcloud_service.go
--   Service/Block        internal/service/upcloud_block_storage.go; Service/Backup has its snapshots
--   Service/File         internal/service/upcloud_file_storage.go
--   Service/Upcloud      GetServerByHostname, and the methods put together as a `Service`
--   Service/Metrics      internal/service/metrics.go
--   Controller           the Controller struct and the constants of internal/controller
--   Controller/Capacity, Capabilities, Pages, Requests
--                        the checks and readings of requests of controller.go, controller_utils.go
--   Controller/Block     internal/controller/controller_block_storage.go
--   Controller/File      internal/controller/controller_file_storage.go
--   Controller/Snapshot  internal/controller/controller_snapshot.go
--   Controller/Rpc       the handlers of internal/controller/controller.go, and lookupVolume
--   Service/NodeSync     the mutexes of internal/service/upcloud_service.go under calls that run at
--                        the same time, as a relation of steps
--   Filesystem           internal/filesystem/filesystem.go: the interface, as a record of operations
--   Filesystem/System    what the host is asked for: commands, system calls, the clock
--   Filesystem/Disks     internal/filesystem/linux_utils.go
--   Filesystem/Probes, Mounts, Resize
--                        internal/filesystem/linux_filesystem.go; Filesystem/Linux puts its methods
--                        together as a `Filesystem`
--   Node, Node/Volumes, Node/Zone
--                        internal/node/node.go, internal/node/zone.go
--   Identity, Logger     internal/identity/identity.go, internal/logger/logger.go
--   Server, Server/Health, Server/Metrics, Server/Group
--                        internal/server/plugin.go, health.go, metrics.go, server.go;
--                        Server/Interceptor has the interceptors of a call
--   Plugin, Plugin/Start, Plugin/Settings, Plugin/Version
--                        internal/plugin/plugin.go, internal/plugin/config/config.go,
--                        internal/plugin/version.go
--   Main                 cmd/upcloud-csi-plugin/main.go
--   Tests                runs on concrete clouds, hosts and disks
-- The children of a component's file hold its theorems and are named for what they prove.
--
-- A handler is an `Action S A`: a function from a state of the world to a result and the state after
-- it. The result is a value, an error or a panic, and what was changed before an error stays
-- changed. `S` is a parameter: the controller is modelled over any `Service`, and `UpCloudService`
-- over any API client. Theorems that need more of the service, of the client or of the mutexes take
-- it as a record of named laws, and Tests shows clouds that satisfy each of them. Names follow the
-- Go names in snake case.
--
-- `int` and `int64` are integers, with the wrap-around of 64 bits written out where the code adds or
-- multiplies. Texts of errors are left out, except constant ones of plain errors. Loops are recursion
-- on the list that they range over. `fmt.Sprint` has the number itself as fuel, which is enough since
-- a number has at most that many digits; the client that walks the pages of ListVolumes has one call
-- more than there are volumes; the loop that waits for a disk has thirty rounds, since each sleeps two
-- of its sixty seconds.
--
-- Parameters that stand for third-party code or the operating system: the API client, `uuid.Parse`,
-- the string sets of k8s.io/apimachinery, the texts of access modes and the SDK's constants
-- (`Library`); files (`Os`); commands, system calls and the decoding of the JSON of findmnt
-- (`System`); HTTP, `url.Parse`, flags, gRPC and the listener; random bytes (`Random`); the registry of
-- metrics (`Registry`); signals (`Signals`), the error group and the HTTP servers (`Process`). The output of a
-- command is text, so that bytes that are not UTF-8 do not occur; names of filesystem types and
-- volume ids are in ASCII; and a mount capability has the message of its volume in it.
--
-- Not modelled: the messages of the log and the entries that the handlers and the services write, but
-- for the interceptor's; timeouts but for the wait for a disk, and the cancelling of contexts; what the
-- libraries do with the servers that they are given, the labels and buckets of metrics included.
pub mod Base
pub mod Go
pub mod Api
pub mod Csi
pub mod Service
pub mod Controller
pub mod Filesystem
pub mod Node
pub mod Identity
pub mod Logger
pub mod Server
pub mod Plugin
pub mod Main
pub mod Tests
