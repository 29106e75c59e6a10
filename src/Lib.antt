-- ===== src/Lib.antt =====
-- The Lumio OS server, server/internal: the parts that decide who may do what, and for how long.
--
-- A request of the browser meets the gateway first (gateway/gateway.go, here
-- Gateway/Session.antt). It asks the session daemon (sessiond/sessiond.go, Sessiond/Daemon.antt)
-- whether the session cookie is valid, checks the CSRF token of a mutating request, and hands the
-- request to the agent of the user. A login passes the limiter (gateway/limiter.go,
-- Gateway/Limiter.antt, called in Gateway/Login.antt) before the daemon sees the password. In the
-- agent, mutating requests run under an idempotency store (httpapi/idempotency.go,
-- Http/Idempotency.antt), and errors become responses by one mapping (httpapi/envelope.go,
-- Http/Envelope.antt). What needs privileges goes to the broker (broker/broker.go), which
-- validates a request (Broker/Request.antt), authorises it (Broker/Authorise.antt), writes an
-- audit log (broker/audit.go, Broker/Audit.antt), and carries the request out
-- (Broker/Handlers.antt, put together in Broker/Server.antt). Network changes are transactions
-- with a deadline (network/network.go: Network/Config.antt is the validation,
-- Network/Controller/Defs.antt the controller). Package updates run in a worker of the broker
-- (updates/updates.go: Updates/Planning.antt calculates a plan, Updates/Worker.antt applies it).
-- The broker writes protected files by privfiles/privfiles.go (Files/Privileged.antt). The
-- requests that the agent forwards to the broker are made in httpapi/handlers.go
-- (Http/Handlers.antt and its children), and Http/Handlers/Agreement.antt compares their checks
-- with those of the broker. The agent lists, reads, writes and trashes the files of its user
-- (files/files.go, files/write.go and files/trash.go: Files/User/List.antt, Files/User/Read.antt,
-- Files/User/Write.antt and Files/User/Trash.antt) and has the user's terminals
-- (terminal/terminal.go: Terminal/Session.antt is one terminal, Terminal/Machine.antt the
-- interleavings of those who share it, Terminal/Options.antt how a shell is started). It asks
-- journalctl for pages of the journal (journal/journal.go: Journal/Query.antt is a query and its
-- arguments; journal/parse.go: Journal/Entry.antt; journal/cli.go: Journal/Cli.antt). It follows
-- the units of systemd (services/systemd.go: Services/Units.antt is a listing and what differs,
-- Services/Watch.antt the manager with its subscribers, Services/Detail.antt the details of a
-- unit, and Services/Watch/Client.antt what src/api/client.ts makes of the changes). The samples
-- of the system's load are those of system/metrics.go (Metrics/Parse.antt and
-- Metrics/Sampler.antt). The handlers that the agent answers itself (httpapi/handlers.go) are in
-- Http/Local.antt. The channels of a WebSocket (wsapi/conn.go) are in Socket/Connection.antt, what
-- a subscription starts (wsapi/channels.go) in Socket/Channels.antt, and what a connection to a
-- terminal is sent first in Socket/Replay.antt. Broker/Systemd.antt is the broker's client of
-- systemd (broker/systemd.go), and Sessiond/Agent.antt the groups and the shell of an agent
-- (sessiond/agent.go). Paths of the source are below server/internal/, but for src/api/client.ts.
--
-- Functions keep the names of the source in snake_case, and a struct is a record with the source's
-- fields, less those that nothing modelled reads. A handler takes the state of its component and
-- returns the new state with the reply. A map is an association list (Prelude/Map.antt). What is
-- not code of the repository is a parameter: PAM, Polkit, systemd, Netplan over D-Bus, net/netip,
-- random tokens, hashes, JSON, floating-point numbers. Where such a party has a state of its own,
-- it is a function of a world of any type, so that a theorem can say that the world was left
-- alone. Times are ℕ, in nanoseconds, and a request that reads the clock takes the time as an
-- argument.
--
-- The writers of files run in a monad of results over a log of the calls that succeeded and a
-- world (Prelude/Action.antt, Files/System.antt); every call of the system may fail, and the
-- deferred removal of a temporary file is part of it. Files/System/Quiet.antt and
-- Files/System/Run.antt carry properties of that log through an action, and Files/System/Exact.antt
-- the log itself, call by call.
--
-- The session daemon's mutex is a Boolean in its state: a handler that finds it locked never
-- answers, and a panic that skips the unlock leaves it locked. A terminal is a step relation,
-- where what a call does after it has left the mutex is a step of its own. Elsewhere a handler is
-- one step, and requests are served one after the other. The limiter computes its delay in 64
-- bits, with the wrap-around written out. Every loop of the modelled code runs over a list, but
-- for three. The one that cuts a replay into chunks has the number of bytes as its fuel; each
-- round takes at least one, and Socket/Replay/Shown.antt has the lemma that nothing is left. The
-- waiting for a unit has 82 rounds, one for each 100 ms of its 8 s and two more, and
-- Broker/Systemd/Waiting.antt shows that they are enough. The search for a free name in the trash
-- has any fuel, and ends if one of so many names is free (Files/User/Trash/Moves.antt).
--
-- Not modelled: the HTTP and WebSocket plumbing, the start of agent processes, the overview of the
-- system, and the D-Bus calls themselves, whose values are those of Prelude/Dbus.antt.
pub mod Broker
pub mod Files
pub mod Gateway
pub mod Http
pub mod Journal
pub mod Metrics
pub mod Network
pub mod Prelude
pub mod Services
pub mod Sessiond
pub mod Socket
pub mod Terminal
pub mod Updates
