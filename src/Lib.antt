-- ===== src/Lib.antt =====
-- A model of sepigs, a proxy core in TypeScript: inbounds accept connections, the router picks an
-- outbound for each destination, DNS resolves or fakes addresses, and the core counts and bounds
-- what is open. The parts interact by calls: the configuration is read and validated once, and its
-- sections are what the others are built from; an accepted connection is admitted by the limiter
-- and counted by the statistics; a destination is read from the wire by an inbound protocol and the
-- address codec, matched by the router, turned into candidates by a routing policy that knows which
-- outbounds are healthy, and sent to an outbound, through a Shadowsocks stream for one; a DNS
-- generation owns its caches and is replaced by another when the configuration is reloaded, in a
-- transaction that prepares, checks and commits the components or rolls them back.
--
-- Files and code:
--   Core/Limiter       src/core/resourceLimiter.ts: admission (tryAcquireConnection, releaseConnection)
--   Core/Stats         src/core/stats.ts: the counters (StatsTracker)
--   Core/Connections   src/core/connectionManager.ts: live connections, their timers, sockets, bytes and
--                      closing. The manager's map, the connection objects that callers keep and the shared
--                      limiter and counters are one state; events of sockets and timers are calls
--   Core/UdpSessions   src/core/udpSessionManager.ts and src/transport/udpSession.ts: sessions, their timers
--                      and the counters
--   Config/Json, Config/Read, Config/Checked  the parsed JSON, the readers of src/config/schema.ts and its
--                      checks that throw
--   Config/Settings, Config/Sections, Config/DnsSection, Config/Extensions, Config/Inbounds,
--   Config/Outbounds, Config/Routes  the sections of src/config/schema.ts and the types of types.ts
--   Config/References, Config/Parse  what parseConfig demands of the sections together, and parseConfig
--   Config/Migrate     src/config/migrate.ts
--   Inbound/Trojan     src/inbound/trojan.ts: the first bytes of a connection, in any chunks, and the request
--                      of src/outbound/trojan.ts
--   Inbound/Socks5     src/inbound/socks5.ts: negotiation, credentials, command, over the reader of
--                      src/utils/net.ts (BufferedSocketReader)
--   Inbound/SocksUdp   src/inbound/socks5Udp.ts: the datagrams
--   Protocol/Destination  src/protocol/types.ts and the address part of src/utils/net.ts
--   Protocol/Address      src/protocol/address.ts: encodeSocksAddress, decodeSocksAddress
--   Protocol/BufferQueue  src/utils/bufferQueue.ts: push, read
--   Protocol/Shadowsocks  src/protocol/shadowsocks.ts: key derivation, nonces, the two directions of a
--                      ShadowsocksTcpStream, UDP packets
--   Dns/FakeIpPool, Dns/FakeIpStore, Dns/FakeIp  src/dns/fakeIpPool.ts, fakeIpStore.ts and fakeIp.ts
--   Dns/Cache          the caches of src/dns/generation.ts (DNSGeneration)
--   Dns/Carryover      src/dns/cacheCarryover.ts
--   Dns/Generations    src/dns/generationStore.ts with the counting of src/dns/generation.ts
--   Router/Matcher     src/router/matcher.ts: domains, suffixes, CIDR blocks
--   Router/Rules       src/router/rules.ts and src/router/router.ts: the first rule that matches
--   Router/Policy      src/router/policy.ts: candidates of a policy, successes and failures, snapshots
--   Router/Health      src/router/health.ts: the bounded samples of each outbound
--   Router/Prober      src/router/prober.ts: targets, the workers of a run, backoff
--   Reload/Transaction src/reload/generation.ts: the states of a transaction
--   Reload/Executor    src/reload/executor.ts: the phases, rollback and cleanup
--   Base               helpers: lists, options, results, the language's Map as an ordered table, text,
--                      digits, numbers in text
--
-- How the code is modelled. A method is a function from the state and its arguments to the result
-- and the new state; a thrown error is a constructor of a result type. An asynchronous callback is
-- a call of its own, in any order with the others. Text is a list of code units; trim and
-- toLowerCase are written for ASCII in Router/Matcher and are an argument in Dns. Number() is
-- modelled for every literal (Base/Numbers), as the integer from 0 that it denotes or as none,
-- without the rounding to 53 bits. A number of a configuration is an integer, or one with a
-- fraction, which every check for an integer refuses. The workers of a probing run take steps in
-- any order, a step relation on the run. Clock readings are arguments. Numbers that the code keeps
-- in 32 bits have their remainders written out; counters are unbounded, as they stay far below 2 ^
-- 53.
--
-- Code outside the repository is an argument: net.isIP and UTF-8 (IsPlatform states what is relied
-- on; decoding undoes encoding for text without a lone surrogate, IsWellFormed), and the ciphers
-- and hashes of Node (IsCrypto: lengths, and that opening undoes sealing). A concrete instance of
-- each is in the tests. The SHA-224 of a Trojan password is an argument (IsHash: no carriage return
-- in its hex digits). Latencies are floating point in the code: the type L, its order and the
-- average are arguments, as is the random draw of a policy.
--
-- Bounds. Loops run on fuel that is enough: encrypt_parts has a round for each byte of the payload,
-- decrypt_loop one more than the bytes that are buffered, evp_chunks one for each byte of the key;
-- trim and trim_cache one for each entry, next_loop the capacity of the pool. The theorems on these
-- functions state a result, so none of them runs out. A probing run takes at most three steps for
-- each target and one for each worker.
--
-- Not modelled: the engine's wiring, sockets and relays; the HTTP inbound, whose requests need the
-- platform's URL parser and base64; the connection pool, the outbound and policy generations, the
-- DNS resolver's packets; the averages of a health snapshot, which are floating point; the
-- dashboard, metrics, plugins, workers, transports, the TUN device, WireGuard, subscriptions, soak
-- runs and the tools, most of which only call the platform.
pub mod Base
pub mod Core
pub mod Protocol
pub mod Dns
pub mod Router
pub mod Reload
pub mod Config
pub mod Inbound
