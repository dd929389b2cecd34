-- ===== src/Lib.antt =====
-- A model of yunzes-node, a proxy node that a panel drives, and the theorems about it.
--
-- The panel hands each node a configuration and a list of users. One controller per node
-- (node/controller.go) puts the node into a core (xray or sing-box, core/), asks the limiter
-- (limiter/) about every connection through the core's hooks, and runs periodic tasks: it pulls
-- changes, reports traffic and online users, and slows down users who move too much.
--
-- Files and code:
-- - Base: notation, lists, maps and texts. A Go map or sync.Map is an association list whose writes
--   keep the place of a key (Base/Maps); Go's order of a walk is the order of that list.
-- - Format (common/format, with Format/Cipher for sscipher.go), Panel (api/panel, the messages;
--   Panel/Client is GetNodeInfo of api/panel/node.go), Conf (conf/limit.go), Json5 (common/json5),
--   Tasks (common/task, the timer as a state machine).
-- - Limiter: Conn is limiter/conn.go; Alive, OldOnline and Speed are limiter/alive.go,
--   limiter/old_online.go and limiter/dynamic.go; State holds the Limiter of limiter/limiter.go
--   with UpdateUser, GetOnlineDevice and the dynamic limits; Check is CheckLimit, cut into its
--   stages; Registry is the global map of limiters with AddLimiter, DeleteLimiter and
--   limiter/clear.go.
-- - Counter (common/counter/traffic.go; Counter/Conns is conn.go), Core/Interface
--   (core/interface.go), Core/Slices (the traffic slices of core/xray/user.go and
--   core/sing/user.go), Core/Selector (core/selector.go), Core/Links (the admission of a link in
--   core/xray/app/dispatcher, default.go and linkmanager.go), Core/Hook (core/sing/hook.go and
--   conn_release.go).
-- - Node/Ports (node/port_registry.go), Node/Traffic (node/traffic_store.go), Node/Controller (the
--   state of node/controller.go), Node/Report and Node/Users (node/user.go with
--   node/config_validation.go), Node/Dynamic (SpeedChecker of node/task.go), Node/Monitor
--   (nodeInfoMonitor of node/task.go), Node/Reload (node/reload.go), Node/Lifecycle (Start and Close
--   of node/controller.go).
-- - Of node/node.go: Node/Intervals (the intervals of the tasks), Node/Servers (a node from a protocol of
--   the panel's), Node/Startup (all the controllers of a process, started and closed).
-- - Node/Certs (the claims and tests of node/cert_manager.go, and conf/cert.go), with Files (the
--   atomic write), Issue (node/lego.go and node/cert.go), Ensure (EnsureCertificate) and Resolve
--   (node/cert_resolve.go).
-- - Process (reloadProcess of cmd/reload.go).
-- - Tests: runs at concrete inputs, and the theorems applied to them.
-- The other children of a module hold proofs about it.
--
-- How the code is rendered. A method that writes to its receiver is a function from state to state; a
-- failure that stops it is `none` or `err`, and a panic of a type assertion is `none`. Locks are not
-- modelled, but for that of a task (Tasks): each operation is one step, and sequences of steps stand for
-- interleavings of whole operations, so races inside an operation are out of scope. A controller's
-- limiter and its entry in the global map are one object: a method that changes it is applied to both,
-- to the map where there is an entry under the controller's key. The time is an input in nanoseconds, the
-- Unix times and expiries are in seconds. Counts, limits and bytes are natural numbers without an
-- upper bound: the code keeps them in int and int64, which the totals that occur do not fill. A port
-- keeps its cut to 16 bits, and the durations of a certificate's window and of the intervals their
-- wrap-around at 64 bits. Token buckets (an outside package), the core's own inbounds, the panel, ACME,
-- x509, AddDate, base64 and the system calls on files are parameters: a bucket type with its constructor, a
-- record of the core's operations on a state, and the answers of the others, failures included. Loops
-- go over lists, but for two: the byte loops of Json5 run on fuel and are `none` if it runs out; it is
-- one more than the length of the text, of which each turn takes at least one byte. The printing of a
-- number has the number itself as fuel, and each turn divides it by ten.
--
-- Not modelled: the transport to the panel, the account, the client and the providers of ACME, the
-- inbound builders of both cores, sniffing and routing, the command line, watching and reading
-- configuration files. The inbound builders can be modelled in the same way and are not yet; the rest
-- is input and output of outside packages.
pub mod Base
pub mod Format
pub mod Panel
pub mod Conf
pub mod Limiter
pub mod Counter
pub mod Core
pub mod Node
pub mod Tests
pub mod Json5
pub mod Tasks
pub mod Process
