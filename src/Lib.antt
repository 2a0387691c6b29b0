-- ===== src/Lib.antt =====
-- dashd, the agent of the dashboard (agent/): its login and configuration, the providers of
-- systemd units, containers, game servers and bots, and the web server in front of them.
--
-- Base: the names that all files share; lists, byte strings, maps, signed numbers, decimals,
--   big-endian numbers, and the complete lines of a text.
-- Provider: agent/internal/provider/provider.go, with CleanLine in Provider/CleanLine.
--   Provider/Registry: agent/internal/provider/registry.go, the ids and where calls go.
--   Provider/Ring: agent/internal/provider/ring.go; `push` is Push, `last` is Last.
-- Auth: agent/internal/auth. Auth/Limiter is limiter.go, Auth/Totp totp.go, Auth/Password
--   password.go, Auth/Authenticator auth.go. The login asks the limiter, checks the hash and the
--   code, and keeps sessions in memory and in a file. Auth/Crypto holds the packages it uses.
-- Config: agent/internal/config/config.go from the decoded YAML on; `normalize` is normalize.
-- Pm2: agent/internal/providers/pm2. Pm2/Rpc is rpc.go, Pm2/Logs the log file of logs.go: Split,
--   Cap, Follow, Finished and Replaced are about poll, Open about open. Pm2/Clean is clean of
--   snapshot.go, Pm2/Processes the units that pm2.go makes of a snapshot (`bind` is bind), with
--   its age and the requests to the helper in Pm2/Processes/Snapshot. Pm2/Control is the helper's
--   side: the list of snapshot.go, and act and handleControl of control.go; Pm2/Control/Remote is
--   SendControl, and the provider with the helper at the other end; Pm2/Control/Asked says what a
--   request asks for. Pm2/Names is DiscordNames of
--   names.go with its cache in export.go. Pm2/Rpc/Calls is call, monitorData and parseReply of
--   rpc.go. Pm2/Streaming is streamLogs and streamFromHelper of logs.go: Page is about what the
--   helper sends, Shown and Whole about what dashd makes of it. Pm2/Export is Take and warn of
--   export.go and AccountNames (`take_snapshot` is Take), Pm2/Export/Write is WriteSnapshot and
--   Run, and Pm2/Acl is acl_linux.go with listenControl.
-- Host: agent/internal/host/host.go; `collect` is Collect, Host/Disks is about the disks.
-- Cli: agent/cmd/dashd/main.go; Cli/Registered is about the registry that `serve` fills, Cli/Init
--   is the other commands, and Cli/Init/Password about the login that `init` sets up.
-- Audit: agent/internal/audit/audit.go; Audit/Reopen is about Open, Audit/Newest about Recent.
-- Docker: agent/internal/providers/docker/docker.go; Docker/Stream is readMultiplexed,
--   Docker/Containers is List, with the containers that it keeps in Docker/Containers/Kept, and
--   Docker/Containers/Actions is Do, Logs and the errors.
-- Systemd: agent/internal/providers/systemd/systemd.go, with the journal in
--   Systemd/Journal; Systemd/Show and Systemd/Listed are about List, Systemd/Done about Do.
-- Pterodactyl: agent/internal/providers/pterodactyl/pterodactyl.go; Pterodactyl/Console is the
--   loop of Logs.
-- About: agent/internal/about/about.go; `describe` is For.
-- Api: agent/internal/api. Api/Hub is hub.go, Api/Socket a client of ws.go with its queue,
--   Api/Subs its log subscriptions and Api/Batches one of their goroutines. Api/Requests,
--   Api/Endpoints and Api/Server are server.go: `handle` is Handler, which asks Auth for the
--   session, Registry for the provider of an action, and tells Audit and the hub about it.
--
-- Numbers are natural numbers, with the wrap-around of a conversion written out; ℤ stands where
-- the source can go below zero. A text is a list of bytes, a map an association list. An operation
-- under a lock is one step; clock readings, randomness and what a system call answers are
-- arguments. HMAC, base32, base64, SHA-256 and argon2 are fields of `Crypto`, the ANSI pattern and
-- the repair of UTF-8 fields of `TextTools`.
--
-- A percentage is the exact fraction that the source rounds to a float64; in Host the arithmetic
-- of float64 is a parameter. What systemctl, Docker's API, pm2 and a provider's own Do answer,
-- JSON, Go's router and URL parsing are parameters.
--
-- Fuel: `drain`, `demux` and `await_reply` take a fuel above the length of their input; each of
-- their rounds takes at least one byte of it, so it is never used up. `settle_from` takes a fuel
-- above the number of ids in use: the numbers that it tries are distinct, so one of them is free
-- before it is used up.
--
-- Not modelled: a control answer of which only a part comes; the time-outs of a websocket's calls,
-- which are errors of theirs; the accept loops of sockets and the HTTP server; file modes, but for
-- those of the control socket; gopsutil, flag parsing, YAML and JSON decoding, for which a message
-- that arrives is the value that was sent; the mock data and the frontend.
pub mod Base
pub mod Provider
pub mod Auth
pub mod Cli
pub mod Config
pub mod Host
pub mod Pm2
pub mod Docker
pub mod Systemd
pub mod Pterodactyl
pub mod About
pub mod Api
pub mod Audit
