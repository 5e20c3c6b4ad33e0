-- ===== src/Lib.antt =====
-- A verification library for Libersuite Panel, a server that sells access by SSH and SOCKS5, with a
-- listener that serves both on one port, a DNS dispatcher for tunnels, and a panel on the command line.
--
-- Which file is about which part of the program:
--
--   Client: `models.Client` of database/models/client.go and its checks on the date and the quota.
--   Database: the clients' table. gorm and SQLite are not part of the program, so that the calls of the program
--     are a record of functions over an unknown state, and the behaviour that gorm documents for them is the
--     record of laws `IsLawful`. Database/Table is a table in memory that keeps the laws.
--   Socks: socksserver/server.go. Wire is the connection, with the bytes to come and the outcomes of the
--     writes; Auth is `authenticate`, Quota and Relay are `quotaWriter` and the two copiers, Address is
--     `readTargetAddress`, and Request is `handleConnectRequest`, `writeReply` and `handleConnection`.
--     Request/Overdraw is about several sessions of one client, Request/Billing/Frame about the rows that a
--     connection leaves alone.
--   Listener: `Start` and `Shutdown` of socksserver/server.go, the loop of Accept, the count of the handlers and
--     the wait for them; Start has the address and what the two functions return. mixedserver/server.go has the
--     same two functions, which Mixed/Start spells out.
--   Ssh: sshserver/server.go, its `passwordHandler`, the sessions, the counters and the flushes. Channels is
--     `directTCPIPHandler` and its copiers, Shutdown is `usageFlusher` and `Shutdown`. Ledger is the abstract
--     specification of the accounting, one balance for each open session. Interleaved takes `flushOne`
--     apart into its atomic steps, with the locks of `flushAll` and `watchSession` and the copiers
--     between the steps. Channels is a session between two such steps; in Sessions and what rests on it a flush is
--     one step, and a Shutdown whose flush crosses another leaves what it is given. Flush/Order is about the order of a range over the
--     sessions, Bill about the row of one session's client from the login to the end, with other
--     sessions between. Sockets is the other side of `directTCPIPHandler` and `watchSession`: what a
--     handler opens and stores in `conns`, and what the end of the session closes. Start is the
--     options for the ssh library.
--   Mixed: mixedserver/server.go, `handleConnection`; Start is its `Start` and `Shutdown`.
--   Dns: dnsdispatcher/dnsdispatcher.go; Start is what its `Start` returns.
--   Crypto: crypto/rsa.go, the key pair of the host. Crypto/Calls is the disk, with a plan of which of the calls to
--     come fail, and how much of its text a write that fails has written.
--   Panel: cmd/panel. Of client.go, Clients is the commands that change the table, Listing is `client list`, Export
--     is `client export` with the functions it calls, and Format is `formatBytes`. Keys is keys.go and the
--     host key of `serverCmd`. Of server.go, Domains is `parseDomains`, Setup is the checks of the options,
--     and Serve is the way of `serverCmd` up to the start of the servers; Servers has their configurations and the select
--     at the end, Ended the Shutdowns in their order, Machine a network by its listeners, and Reached what the
--     mixed listener comes to on it. Flags is the flags of all commands, as declared and as read. Entry is cmd/main.go, root.go
--     and database/database.go, up to the command and its exit code.
--   Examples: inputs on which the theorems are applied.
--   Prelude and Text: the Booleans, lists, integers and texts that the parts share. A text is a list of
--     bytes; int64 wraps around by `wrap64`. Of the standard library of Go, what the program calls of
--     strings, fmt, net, io and os is defined in Text, Socks/Wire and Crypto/Calls as documented.
--
-- How the parts interact: the server command makes the host key and the dispatcher and starts the listeners. The
-- listener of Mixed reads one byte and passes the connection to Ssh or to Socks. Both look the client up
-- in the table at a login, save its record with a new time, and count its bytes against the limit of
-- that record. Socks adds the bytes of a session to the row when it ends; Ssh writes its record over
-- the row at each flush. The commands of Panel change the same rows meanwhile.
--
-- Handlers on a connection run in a monad of a result and a world, the connection and the table; the functions of
-- Crypto in one of a result and the disk. What runs at the same time is a list of events in any order:
-- the two copiers of a SOCKS session, the channels, flushes and closed connections of the SSH server,
-- the single steps of its flushes, the sockets of its channels, the two copies of the mixed listener, the loop and the handlers of a listener.
--
-- Parameters, of code that is not the program's: the database and its opening, the network that answers an address or not, the
-- resolver, `Keys` for crypto/rsa and x509, `Codecs` for JSON, base64, PEM, x509 and SHA-256, the
-- reading of the payload of a channel, `Tcp` for the listeners of a machine, and the texts of `%.1f` and of a date.
--
-- Fuel: `format_nat` has one more step than the value of the number; `scale` of Panel/Format has 64, and
-- a number below 2^63 is divided by 1024 at most six times. All other functions are structural.
--
-- Not modelled: logging; the parsing of the command line and the choice of the command, which are cobra's; the alignment of
-- the list's columns; directories in the place of a key file, which the disk of Crypto does not have. In Ledger and Shutdown a session that was
-- removed counts no bytes any more. A deadline that passes is an input that ends, or an event. The
-- byte counts of the copiers are events, so that which bytes they carry is left out for SOCKS and SSH
-- and kept for the mixed listener. The time at which a login is checked and the time it is stamped with
-- are two parameters.
pub mod Prelude
pub mod Text
pub mod Client
pub mod Database
pub mod Socks
pub mod Dns
pub mod Panel
pub mod Ssh
pub mod Mixed
pub mod Examples
pub mod Crypto
pub mod Listener
