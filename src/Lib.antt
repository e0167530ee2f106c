-- ===== src/Lib.antt =====
-- swarm-discovery: peers on a local network find each other by mDNS. A node is a set of actors. The
-- guardian (src/guardian.rs) starts the others and hands updates of the node on to the sender. The
-- sender (src/sender.rs) alternates between a phase in which it waits for a query or asks itself, and
-- one in which it responds unless enough others have. A receiver (src/receiver.rs) for each socket
-- (src/socket.rs) turns packets into queries and responses for the sender, which hands the responses
-- to the updater (src/updater.rs). The updater keeps the table of peers, calls the application, tells
-- the size of the swarm to the sender, and drops peers that have gone silent. The application sets a
-- node up with a Discoverer (src/lib.rs).
--
-- Files and what they model:
--   Prelude        shared names, Boolean tests, lists measured by native numbers
--   Std            what the code uses of Rust's standard library: ordered maps and sets, hash maps,
--                  sort_unstable and dedup, UTF-8, decimal numbers, Duration in nanoseconds, addresses;
--                  floats are bit patterns whose operations are a parameter (Std.Float.FloatOps)
--   Peer           Peer, IpClass, Protocol (src/lib.rs) and Mode (src/socket.rs)
--   Discoverer     the builder, and the check of TXT attributes (src/lib.rs)
--   Dns            hickory-proto, as parameters: names (NameApi) and the codec (Codec)
--   Messages       the messages between the actors
--   Sender         make_query, make_response, update_response (Sender.Response); the delays
--                  (Sender.Delay); the two loops of the actor (Sender.Machine): State holds its
--                  variables and Phase the loop it is in, step is a round of that loop. Its other
--                  files are about the updates of the node (Updates, Setup, Sound, Ports), its timers
--                  (Timers, Timely), its packets (Sending) and panics (Progress, Going)
--   Receiver       handle_msg, and the loop of the actor (Receiver.Loop)
--   Wire           how make_response and handle_msg fit together, and what the response holds
--                  (Wire.Contents)
--   Updater        the actor of src/updater.rs: handle_input is a round of its loop
--   Socket         Sockets, over a parameter for socket2 (SocketApi)
--   Guardian       the actor of src/guardian.rs: step is a round of its loop
--   Spawn          Discoverer::spawn, its checks and errors (src/lib.rs)
--   Guard          DropGuard and its methods (src/lib.rs)
--   Node           all actors of a node with their mailboxes and timers: Step is one round of one of
--                  them, a packet, a timer or a call on the guard, and Reach is what a node comes to;
--                  Node.Settling.Rounds are steps in which actors handle messages, Node.ByItself adds
--                  the timer of the sender, and Node.Sane says what is asked of a node's settings
--                  and sockets
--   ChangeAddresses the unit test of src/lib.rs, test_change_addresses, for two such nodes
--   Examples       the programs of examples/: their callback (Examples.PeerSet), and the task that
--                  follows the interfaces (Examples.Interfaces)
--   Tests          a sample node, and runs of it
--
-- An actor is a function from its state and a message to a new state and a list of effects (packets,
-- timers, messages, calls of the callback), and panic is a value (Std.Outcome). The clock, the random
-- draws, and whether a send panics are read from the input of the round. A run is over any sequence of
-- inputs, so that every interleaving of the actors' messages is one of them. In Node the actors run
-- against each other, in any order; a step in which an actor panics is none, so that Reach holds what
-- comes before a panic; a node begins when its sender and its updater have started. All peers of a
-- packet have one time, though receiver.rs reads the clock once for each.
--
-- Bounds: usize counters wrap at 2 ^ 64 and u32 counters at 2 ^ 32, as in a release build; a Duration
-- that overflows panics. Only decimal printing takes fuel: n + 1 rounds for n, each of which divides
-- by ten.
--
-- The draw of a timer is below a million, as random_range(0..1_000_000) gives it. Where a theorem
-- bounds the number of peers of a node, it is by 2 ^ 32, the range of the casts in src/sender.rs.
--
-- Not modelled: the acto runtime and tokio (mailboxes, supervision and timers are steps, recv_from a
-- sequence of results), logging, the closure of with_callback (its calls are effects of the updater),
-- the end of a node after a panic or after the end of a supervised actor, which ends the
-- loop of the guardian (Guardian.step), if_addrs and the input and output of the examples, and
-- tests/discovery.rs, which runs nodes on a simulated network.
pub mod Prelude
pub mod Std
pub mod Peer
pub mod Dns
pub mod Discoverer
pub mod Messages
pub mod Sender
pub mod Receiver
pub mod Wire
pub mod Updater
pub mod Socket
pub mod Guardian
pub mod Spawn
pub mod Guard
pub mod Node
pub mod Examples
pub mod ChangeAddresses
pub mod Tests
