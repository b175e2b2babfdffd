-- ===== src/Lib.antt =====
-- wireguard-go: a userspace implementation of WireGuard. This library models the parts of it that
-- decide what the protocol does, and proves what they promise. Times, addresses, keys and messages
-- are natural numbers and lists of bytes; pointers are numbers; a function that reads the clock or a
-- random source takes what it reads as an argument.
--
-- The parts, and how they work together:
--
-- * Replay (replay.go): the filter of a key pair against replayed packet counters.
--   `validate_counter` is ValidateCounter, in the steps `move_window` and `check_and_set`; the
--   ring of BacktrackWords words is a list. Replay/Spec is the set of accepted counters that it
--   stands for.
-- * Trie (trie.go): the networks of peers by prefix. `insert`, `remove_peer`, `lookup`,
--   `allowed_ips` and `count` are the methods, on the data type of the nodes; the loops are
--   recursion on the trie or on the bytes. Trie/Owner is the function from networks to peers.
-- * Routing (routing.go): a trie for IPv4 and one for IPv6.
-- * Index (index.go): the 32-bit indices that name a handshake or a key pair in messages.
--   `new_index` takes the random draws of its loop as a list, and with each draw what other
--   goroutines do to the table before its read lock and before its write lock. Any number of draws
--   may be given: the result `looping` says that they were too few, and Index/Laws shows that a
--   list with one usable draw is enough.
-- * Ratelimiter (ratelimiter/ratelimiter.go): the token buckets of source addresses. int64 token
--   counts are bit patterns below 2 ^ 64.
-- * Tai64n (tai64n/tai64n.go): the timestamps of initiations.
-- * Crypto (noise-helpers.go): HMAC, the KDFs and the keys, over the primitives of x/crypto, which
--   are a record of functions. `IsSound` is what their documentation promises.
-- * Noise (noise-protocol.go): the handshake. Noise/Initiation and Noise/Response are the four
--   functions that create and consume its messages. The two halves of ConsumeMessageInitiation,
--   which hold different locks, are two functions. They use the index table, the timestamps and the
--   keys.
-- * Keypair (keypair.go, NewKeypair of noise-protocol.go, and the confirmation of a key pair in
--   RoutineSequentialReceiver of receive.go): key derivation and the slots current, previous and
--   next, with the index table. Key pairs are in a heap, since the slots and the table share them.
-- * Keys (noise-types.go): keys as hexadecimal text, and their comparison.
-- * Cookie (cookie.go): the MACs on handshake messages and the cookies of a device under load.
-- * Timers (timers.go, and SendHandshakeInitiation of send.go): the handlers of a peer's timers and
--   events, on its timers, flags and counters. What they send is a list of outputs.
-- * Queue (send.go and receive.go): the channels between the goroutines, as lists of at most their
--   size. A function that adds to a full queue discards the oldest element.
-- * Packet (send.go, receive.go and ip.go): padding, encryption and decryption of data packets, the
--   check of their source address, and the peer that a packet is for.
-- * Message (send.go and receive.go): the bytes of the handshake messages, as binary.Write and
--   binary.Read lay out the structs of noise-protocol.go.
-- * Device (device.go, peer.go and the functions of conn.go on the device's bind): the peers, which
--   are numbers, and the state of the device. Device/Peers starts, stops, adds and removes peers;
--   Device/State brings the device up and down, where deviceUpdateState calls itself until the
--   state is settled: `device_update_state` takes a number of rounds, and Device/Settles shows that
--   three are enough. Device/Configure is SetPrivateKey, which holds the read
--   locks of the peers' handshakes: `rlock_each` takes them, and `stop_holding` is Stop by the
--   goroutine that has them, whose write lock is `lock`.
-- * Traffic, Send and Receive (send.go and receive.go): one function per turn of a goroutine's
--   loop, on the device, its queues and their elements. `read_from_tun`, `wait_for_keypair`, and
--   in Send/Sequential `encrypt_element` and `send_element` are the TUN reader, the nonce worker,
--   the encryption workers and the sequential sender; `receive_incoming`, `decrypt_element`,
--   `handle_handshake` and `receive_element` are the receivers, the decryption workers, the
--   handshake workers and the sequential receiver. Send/Nonces has the runs of the nonce workers,
--   with anything that the others may do in between. What is sent and written is a list.
-- * Uapi (uapi.go): the lines of a configuration as changes of the device and of the variables of
--   the loop of ipcSetOperation; `set_line` is the loop's body. Uapi/Get is ipcGetOperation,
--   Uapi/Handle ipcHandle, and Uapi/Socket the socket of uapi_linux.go.
-- * System (golang.org/x/sys/unix): the system calls on descriptors as a record of actions on the
--   kernel's state, with what the manual pages say of the table of open descriptors as laws.
-- * Sockets, Endpoint and Netlink (conn_linux.go, and parseEndpoint of conn.go): the sockets of a
--   bind, endpoints with the source address that is cached, datagrams, and the messages on routes
--   that clear the source. The loops over messages and attributes take a number of rounds; those
--   over attributes get as many as there are bytes, and Netlink/Routes shows that one more changes
--   nothing.
-- * Portable (conn_default.go): the bind of the other systems.
-- * Tun (tun_linux.go): packets with their header, descriptor sets, the calls about an interface,
--   and the messages that become events. Device/Interface is RoutineTUNEventReader of tun.go,
--   which brings the device up and down by those events, each in a number of rounds as above;
--   Device/Create is NewDevice.
-- * Start (main.go and logger.go): what the arguments and the environment ask for, and the
--   environment of the process in the background.
-- * Base, Constants and Misc: what the parts share, constants.go, and misc.go. Tests runs the
--   functions on concrete inputs.
--
-- Time.Sub saturates as in Go. A list does not fix the sizes of Go's arrays: theorems that need a
-- size have it as a condition. Not modelled: what the operating systems do in a system call, the
-- interfaces and configuration sockets of systems other than Linux, the watch for the deletion of
-- the configuration socket, the signals that end the program, and the pool of buffers. A
-- goroutine's end is modelled only where the code returns because of a message. Clearing secrets
-- from local variables leaves no trace in the model. Locks show only where code releases one
-- between two steps, or takes one that it holds, as SetPrivateKey does.
pub mod Base
pub mod Constants
pub mod Misc
pub mod System
pub mod Replay
pub mod Trie
pub mod Routing
pub mod Index
pub mod Ratelimiter
pub mod Tai64n
pub mod Crypto
pub mod Keys
pub mod Noise
pub mod Keypair
pub mod Cookie
pub mod Queue
pub mod Packet
pub mod Message
pub mod Timers
pub mod Sockets
pub mod Endpoint
pub mod Portable
pub mod Netlink
pub mod Tun
pub mod Device
pub mod Traffic
pub mod Send
pub mod Receive
pub mod Uapi
pub mod Start
pub mod Tests
