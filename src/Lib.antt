-- ===== src/Lib.antt =====
-- Colony Firewall Control: the decision core of the firewall daemon, as a library of definitions
-- that run and theorems about them.
--
-- The daemon (crates/cfc-daemon) receives queued packets, parses them (packet.rs), attributes each
-- flow to a process, asks the decision engine (decision.rs) for a verdict from the rules
-- (crates/cfc-core/src/rule.rs), and puts the flows that no rule decides to the connected clients
-- through the prompt router (prompts.rs), with the default policy (config.rs) as the last resort.
--
-- Which file models which part:
--   Connection, Process, Verdict   connection.rs, process.rs, verdict.rs of crates/cfc-core/src: the
--                                  data, under the source's names.
--   Rule                           crates/cfc-core/src/rule.rs. Rule/Scope has the predicates of
--                                  `RuleScope` (`undecidable_for`, `matches_process`, `matches`, …),
--                                  Rule/Guards its refusals at the edges (`reject_unmatchable_exe`,
--                                  …), Rule/Digest `canonical_exe_sha256`, Rule/Order the priority
--                                  order (`sort_deterministic`), Rule/Lookup the walk of
--                                  `RuleSet::lookup`. The files below each of them have the proofs.
--   Config                         crates/cfc-daemon/src/config.rs: the default policy, its profiles
--                                  and the overlay of the file's table (`resolve`); Config/File has
--                                  the other tables and the loading of the file.
--   Engine                         crates/cfc-daemon/src/decision.rs: `Engine` is the state behind
--                                  the locks, a method is a function on it. Engine/Ids and
--                                  Engine/Invariant see the rules as a map, Engine/Wide relates the
--                                  answers compiled for the kernel to those of the packet path,
--                                  Engine/Hits follows the hit counters.
--   Packet                         crates/cfc-daemon/src/packet.rs: the parser over lists of bytes.
--                                  An index out of bounds is the outcome `panic`.
--   Prompts                        crates/cfc-daemon/src/prompts.rs: each function is a step under
--                                  the router's locks. Prompts/Steps has the steps of clients,
--                                  sweepers and worker in any order, Prompts/Once what holds of them,
--                                  Prompts/Census the count of subscriptions.
--   Reject                         crates/cfc-daemon/src/reject.rs: the refusals that are injected.
--                                  Reject/Offset finds the upper layer of the refused packet,
--                                  Reject/Forge builds the answer, Reject/Checksum sums it,
--                                  Reject/Bucket is the token bucket (`Budget`), Reject/Sends what
--                                  leaves the machine.
--   Nfqueue                        crates/cfc-daemon/src/nfqueue/mod.rs: Nfqueue/Pipeline is
--                                  `handle_packet`, Nfqueue/Worker the state of `Worker` and what
--                                  answers a packet, Nfqueue/Worker/Parking what keeps it, Nfqueue/Worker/Keys the keys of flows and
--                                  Nfqueue/Worker/Loop the loop of `run`. It calls the parser, the
--                                  engine and the rejecter of the files above. What it hands to the
--                                  kernel, the router, the event writer and the live feed are logs.
--   Dns                            crates/cfc-ebpf-proto/src/dns.rs: the parser of observed DNS
--                                  responses. Dns/Reading is `read_name`, Dns/Records the answers;
--                                  the other files below it have the proofs.
--   Hostnames                      crates/cfc-daemon/src/dns.rs: the caches of host names.
--                                  Hostnames/Confirmed follows the names that rules see,
--                                  Hostnames/Sizes the number of entries.
--   Kernel                         crates/cfc-ebpf/src/main.rs: the maps, the exec and exit programs,
--                                  and in Kernel/Connect the hooks on connect() with the socket mark.
--   Enforce                        crates/cfc-daemon/src/ebpf/enforce.rs: the sink that writes these
--                                  maps. Enforce/Programs and Enforce/Compiled are about the table
--                                  of programs, Enforce/Unattended about the two halves together,
--                                  Enforce/Resynced about the table of processes.
--   Wire, Convert                  crates/cfc-proto/proto/cfc.proto and crates/cfc-daemon/src/convert.rs:
--                                  the messages about rules, and the trust boundary that reads them.
--   Storage                        crates/cfc-daemon/src/storage.rs: the table of rules, with what a
--                                  start loads of it.
--   Service                        crates/cfc-daemon/src/ipc/mod.rs: who may call, and the calls that
--                                  write and delete a rule; Service/Answers is `submit_verdict` with
--                                  the standing rule of an answer. `start` is what main.rs does to the
--                                  rules, `tick` the hit flush of maintenance.rs. Service/Permitted is
--                                  about who can write a rule, Service/Agreement, Service/Runs and
--                                  Service/Restart about the rules in force and the stored ones.
--   Stats                          crates/cfc-daemon/src/stats.rs: the shared counters and the pause
--                                  switch. Stats/Traces has the sequences of operations.
--   Humantime                      crates/cfc/src/humantime.rs: the duration syntax of the command
--                                  line. Humantime/Sums has the texts that it reads.
--   Prelude, Scenarios             shared helpers; concrete runs.
--
-- Conventions. Numbers are natural numbers; the counters of hits and waiting prompts wrap or
-- saturate at 2^64 where the source's do, ports and bytes stay what the packet holds. Text is a list
-- of code points. Identifiers and instants are numbers; `created_at` counts nanoseconds from the
-- earliest instant that the chrono crate holds. The wall clock, fresh identifiers and the answer of
-- `is_root_sealed` are arguments. A network of the ipnet crate is known by its prefix length and by
-- its membership test. The error messages are values of a data type in place of strings. Every loop
-- is structural; the walks over IPv6 extension headers have the source's own bound of nine rounds,
-- and the fold of a checksum's carries has two, after which none is left.
-- A map is an association list; the order of a hash map's entries is not observed by any theorem.
--
-- The amounts of the token bucket are `f64` values, counted in 2^-1074, of which each finite one is a
-- whole multiple; what the machine makes of a refill is an argument. Instants are in nanoseconds.
-- A raw socket is the flag that it is open, and whether the kernel takes a packet is
-- an argument; so are the process lookup, the host cache and what a turn of the worker's loop finds
-- in its channels. The 64-bit numbers of prompts run over after 2^63 prompts at the earliest, which
-- the theorems on the worker exclude by a bound on the number of events.
--
-- A map of the kernel takes an entry or refuses it, as an argument says; a ring is the list of its
-- records. What /proc says of a process, before and after, is an argument. So is what the file
-- system says of a rule's executable, whether SQLite carries out a write, and what polkit and the
-- check for an official client answer. An i64 of milliseconds crosses the wire counted from the
-- same origin as the instants.
--
-- Not modelled: how the kernel programs read their records, the loading and pinning of the programs,
-- the netlink and nftables calls, the opening of sockets and of the queue, the SQL of the storage with
-- its events and migrations, the transport, the imports (ApplyRules) and the streams of the gRPC
-- service, the clients (but for the duration syntax), and what the source calls from other crates (the
-- TOML parser is an argument). A verdict that the kernel refuses ends the worker in the source; here the kernel
-- takes every verdict. A verdict channel whose receiver is gone loses the answer in the source; here
-- the channel always takes it.
pub mod Prelude
pub mod Connection
pub mod Process
pub mod Rule
pub mod Verdict
pub mod Config
pub mod Engine
pub mod Kernel
pub mod Enforce
pub mod Wire
pub mod Convert
pub mod Storage
pub mod Service
pub mod Packet
pub mod Prompts
pub mod Reject
pub mod Dns
pub mod Hostnames
pub mod Nfqueue
pub mod Stats
pub mod Humantime
pub mod Scenarios
