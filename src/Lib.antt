-- ===== src/Lib.antt =====
-- pony: a control plane for VPN nodes. An API service keeps subscriptions, connections and nodes
-- in its memory and in PostgreSQL, and publishes messages about connections on a message bus
-- (ZeroMQ). Nodes and an authentication service, which Hysteria2 asks about tokens, follow the
-- messages of their topics. Users buy keys, whose codes add days to a subscription.
--
-- The data. Wireguard models the networks of src/memory/connection/wireguard.rs, with u8, u32 and
-- u128 arithmetic that wraps as in a release build; Key the codes, keys and distributors of
-- src/memory/key.rs; Env, Tag and Topic the texts of src/memory/env.rs, src/memory/tag.rs and
-- src/zmq/topic.rs, and Topic also the filters of the subscribers' loops in src/bin/node/tasks.rs
-- and src/bin/auth/tasks.rs; Subscription src/memory/subscription.rs; Connection the connections
-- of src/memory/connection/ and the messages of src/zmq/message.rs.
--
-- The stores. Connections models src/memory/storage/connection.rs, together with the allocation
-- of peer addresses by src/bin/api/http/handlers/connection.rs; Connection/Update its
-- apply_update; Subscriptions src/memory/storage/subscription.rs. A HashMap is an association
-- list (Prelude/Map), whose order is arbitrary in the program; where the program relies on one
-- entry for a key, a theorem asks for HasUniqueKeys.
--
-- The services. Sync models src/bin/api/sync/tasks.rs: Sync/World is the memory and the list of
-- what has been done to the database and the bus, Sync/Operations the operations over it, in a
-- monad that keeps what was done before an error. Tasks models one pass of the periodic tasks of
-- src/bin/api/tasks.rs, Auth src/bin/auth/tasks.rs and src/bin/auth/handlers.rs, Handlers the
-- requests of src/bin/api/http/handlers/connection.rs and key.rs, Referrals the creation of a
-- subscription in src/bin/api/http/handlers/subscription.rs. The handlers and the tasks call the
-- operations of Sync, these call the stores; the messages of Connection go from Sync to Auth on
-- the topics of Topic.
--
-- Numbers are natural numbers, a w-bit one with its wrap-around written out. An instant is a
-- number of nanoseconds, a uuid its number, a text its code points. The clock and what is drawn
-- at random are arguments. All recursion is structural: no definition has fuel. An operation runs
-- without another one in between; the locks of the program are held inside one call only.
--
-- What stands for code outside of the repository is a parameter: the text forms of addresses and
-- numbers (AddrText), HMAC and base32 (Crypto), case tables (Unicode), uuids as text (UuidText),
-- days (Chrono), URLs and JSON (LinkText), times and uuids in the file of the trials (TrialText),
-- the hash of a series (series_key), the HMAC of an address (hmac_email), the clients of a node
-- (Clients), and whether a call of the database or the bus goes through (Outside). Records of
-- laws say what is documented of them: RoundTrips and the records IsLawful; the tests have
-- functions that obey them.
--
-- Nodes. Inbound and Node model src/config/inbound.rs and src/memory/node.rs, Inbound/Link the
-- links, Nodes the store of src/memory/storage/node.rs; Sync/Nodes the operations of
-- src/bin/api/sync/tasks.rs on nodes and Handlers/Nodes the requests of
-- src/bin/api/http/handlers/node.rs. NodeService models what a node does with messages,
-- src/bin/node/tasks.rs, its state being its connections and the calls of its clients that went
-- through; one message is handled at a time, and how try_join_all interleaves the messages of a
-- batch is not modelled. Node/Start models how a node is made of its settings:
-- src/config/settings.rs, src/config/h2.rs, src/config/wireguard.rs, src/config/mtproto.rs and
-- the beginning of run in src/bin/node/node.rs. Metrics models the samples of
-- src/metrics/storage.rs. Trials models src/bin/api/http/handlers/trial.rs with the map of
-- src/bin/api/email.rs, Trials/File its file, Links the links and the summary of a subscription
-- and the update of one (Handlers/Subscriptions) in src/bin/api/http/handlers/subscription.rs,
-- with the profile for Clash of src/config/clash.rs (Inbound/Clash), and the lists of WireGuard
-- configurations and MTProto links of src/bin/api/http/handlers/connection.rs (Links/Peers).
-- Schedule models the waiting of run_daily in src/utils.rs.
--
-- System puts the services together: a step relation over the world of Sync, whose steps are the
-- requests for connections, the deletions and the restorations, and the store of the
-- authentication service after the batches that were published for it, in their order.
--
-- Database models src/bin/api/postgres/: Conns, Subs, Keys and NodeTables are the tables of
-- connection.rs, subscription.rs, keys.rs and node.rs with their statements and the reading of
-- their rows, and Reload is the reload of the memory by src/bin/api/tasks.rs and pg.rs.
-- PostgreSQL runs the statements: a table is a map by its primary key, UNIQUE is checked, and
-- what a column gives back is the parameter Columns, JSON the parameter Json. Agreement replays
-- the statements that Sync has logged.
--
-- Not modelled: the start of the services, the tasks of a node but for its messages, the
-- measurement of a host, snapshots, the reading of configuration files, the client of PostgreSQL,
-- the clients of Xray and WireGuard, routes, mail; the texts of replies and of the log.
-- src/proto/conn.rs is declared by no module and is not part of the program.
pub mod Prelude
pub mod Wireguard
pub mod Key
pub mod Env
pub mod Tag
pub mod Topic
pub mod Subscription
pub mod Connection
pub mod Connections
pub mod Subscriptions
pub mod Sync
pub mod Tasks
pub mod Auth
pub mod Handlers
pub mod Referrals
pub mod Metrics
pub mod Inbound
pub mod Node
pub mod Nodes
pub mod NodeService
pub mod System
pub mod Trials
pub mod Links
pub mod Schedule
pub mod Database
mod Tests
