-- ===== src/Lib.antt =====
-- The awg proxy (src/): it stands between a WireGuard end and an AmneziaWG end, changes the headers,
-- sizes and MACs of the packets that pass (transform), may disguise them as another protocol (obfs),
-- sends templates and junk ahead of a handshake (cps, generate_junk), keeps the address of each
-- session for the way back (session_table), and asks for a new connection when the remote end goes
-- silent (proxy_control).
--
-- Base        shared helpers: lists over native numbers, casts to fixed widths (`u8`, `u32`, `u64` are
--             remainders), C strings, signed integers, facts by running a test on small numbers
-- ConfigFile  src/config_file.c: the file is the list of its bytes. Lines has the loop over what `fgets`
--             stores, Loaded and Invariant what the result satisfies
-- Obfs        src/obfs.c: `obfs_wrap` and `obfs_unwrap` take a session and the bytes of a packet and
--             return the bytes, or `none` for the null pointer, with the session after it. Wrap and
--             Unwrap have a function for each profile, Frame what a frame reads as, RoundTrip and Flow
--             the two ends together, Send and Overhead the sizes, Names the profile names
-- Rand        src/fastrand.c: a state goes in, a number or bytes and the new state come out
-- Blake2s     src/blake2s.c: the digests and the MAC1 of a handshake
-- Transform   src/transform.c and src/transform.h: `config_validate`, `config_compute`, the two
--             transforms (Outbound, Inbound), the peer lookup and `generate_junk`
-- Session     src/session_table.c: the table as a function of the slot; Scan has the searches of the
--             whole table. Each function is one atomic step: where a reader would wait for a writer it
--             comes to `spinning`
-- Base64      src/base64.c: the decoder of keys
-- Cps         src/cps.c: the templates, their parser (Parse) and the packets made from them
-- Control     src/proxy_control.c: one tick of the timer, and runs of ticks
-- Link        src/proxy_net.c, src/proxy_reconnect.c, src/proxy_startup.c: how the socket to the remote end is
--             made again; the answers of the resolver and of the system calls are the attempts. Backoff
--             has the retries of the start, Again the reconnects of `s2c_thread`, Window the limit on DNS
-- NetAddr     src/net_addr.c: the parser of `host:port`
-- Proxy       the four directions of packets: Client (src/proxy_c2s_client.c), FromRemote
--             (src/proxy_s2c_client.c), Gateway (src/proxy_s2c_gateway.c), FromClients
--             (src/proxy_c2s_gateway.c), with the state of src/proxy.h, the ring of src/proxy.c and the
--             emission of src/proxy_emit.c. ClientBatch compares the batches with a sender that
--             has none, Overwritten shows what the shared buffer does to them, EndToEnd joins both
--             ends, Gro splits datagrams that came coalesced, Gso is src/proxy_io_batch.c
-- Runtime     src/config_runtime.c: numbers, ranges and lists from strings, with `strtol` of the C library
--             as Base/Strtol says; Env the loaders, whose environment is a function from names to
--             values; Silent the timeout for a silent remote end, joined with Control
--
-- A packet in a proxy is its bytes with the headroom in front of them. What a batch holds is an `Iovec`:
-- bytes in a buffer of the packet's own, or the front of a thread's static buffer (`obfs_buf` of
-- src/obfs.c, `hs_buf` of src/transform.c), which is read when the batch is sent. Each call on shared
-- state is one step of one thread.
--
-- The transform runs first and the disguise last on the way out, the other way round on the way in;
-- the clients of Rand and Blake2s call their functions as they stand. Loops over a buffer are
-- structural on its list, loops over an index on the number of steps left, which the code fixes
-- (four probes, 4096 slots, ten rounds). The whole blocks of a BLAKE2s input run on fuel, its
-- length, of which each turn takes 64 bytes; so do the decimal digits of a number, on more fuel than the
-- number, and the calls of `sendmmsg`, on the number of messages. Sequence numbers and hashes wrap
-- at their width. A buffer that the code fills in place is the list of the bytes it holds, with the
-- bound that the code tests written out.
--
-- Two casts and copies are taken where the program calls them: the length of a stored address covers
-- the fields of its family, and the input of BLAKE2s is shorter than 2 ^ 31 bytes.
--
-- Not modelled: sockets, epoll, threads, the log and the start of the program (main.c, the receiving
-- calls of proxy_*.c, proxy_runtime.c, proxy_shutdown.c), which are
-- input and output; Curve25519 (curve25519.c, curve25519_fiat32.c), whose field arithmetic is generated,
-- and which is a parameter of ConfigFile; the resolver and the socket layer (the rest of net_addr.c,
-- net_sock.c). The time of day is a parameter of Cps, the random seed of Transform, the socket of
-- Proxy/Gso.
pub mod Base
pub mod Base64
pub mod Blake2s
pub mod ConfigFile
pub mod Control
pub mod Cps
pub mod Link
pub mod NetAddr
pub mod Obfs
pub mod Proxy
pub mod Rand
pub mod Runtime
pub mod Session
pub mod Transform
