-- ===== src/Lib.antt =====
-- A model of remote-access: an ID server through which a client that knows a host's password gets
-- itself paired with the GameStream server (Apollo) of that host, and theorems about it.
--
-- The program's parts. A host agent registers with the ID server under a 9-digit ID, and polls it for
-- pairing requests. A client looks the host up, asks the server for a challenge, and submits a request
-- with a hash of the challenge under the password's hash and a PIN sealed with a key derived from
-- both. The server queues the request for the host and keeps a slot for its result; it knows neither
-- password nor PIN. The agent checks the hash, opens the PIN, and hands it to Apollo, while the client
-- runs the five steps of the GameStream pairing with the same PIN.
--
-- Base: what the program takes from Rust's standard library. Text is a list of scalar values, `bytes`
--   is its UTF-8 form, a HashMap is an association list, `?` is the bind of Result.
-- Proto: crates/ra-proto/src/lib.rs. External holds sha2, hex, chacha20poly1305 and rand as records of
--   operations with the behaviour that the code relies on; Types the wire types; Hashes password_h1,
--   challenge_response and ct_eq; Ids the IDs and PINs; Pins PairSecret.
-- Rendezvous: crates/ra-rendezvous/src/lib.rs. State holds Store, AppState::new, persist and gc; Auth
--   authorize and observed_ip; Register register, heartbeat and host_info; Polling the long polls and
--   post_pair_result; Pairing challenge and submit_pair; System the histories of requests, in which
--   each handler is one event, since each holds the lock on the store throughout. The other modules
--   prove: Cases and Runtime what a handler leaves of the store, Registry with its children the
--   registry of hosts and its owners, RateLimit the limit on challenges, Delivery the queue of a host,
--   Challenges submit_pair, Results how a result reaches the client, Deadlines the long polls,
--   Persistence the state file.
-- Gamestream: crates/ra-gamestream/src. External holds roxmltree, aes, rsa, x509-parser and
--   rustls-pemfile; Errors lib.rs; Replies xml.rs; Blocks crypto.rs, with proofs in Ciphers;
--   ServerInfos serverinfo.rs; Apps apps.rs; Transport http.rs, over a network that answers each
--   request as it likes; Identities identity.rs, over a store of files, with proofs in its children
--   Saved and Again; Pairing pairing.rs, one function per phase of `next`, with the driver `pair` in
--   Pairing.Driver. Phases, Authentic and Closing prove. Simulated testing.rs, the host's side of the
--   handshake, with the run of the tests of pairing.rs; Queries, Bodies, Answers, Readings and
--   Completes prove.
-- Host: crates/ra-host/src. Config config.rs; Endpoints, Names and Agent agent.rs, with Apollo as an
--   interface over a state of its own; Running the registration and the loop of agent.rs, over a
--   world of operations; Apollos apollo.rs; Checks, Requests, Calls and the children of Running prove.
-- Client: crates/ra-client/src. Remembered config.rs; Resolve, Session and Flows session.rs, Flows the
--   pairing beside its watcher over a world of operations, with prepare and connect in Streams and
--   pair_native and apps_native in Certificates; Moonlight moonlight.rs; Best, Exchange, Spacing,
--   Flows.Native, Flows.Kept and Moonlight.Places prove, Exchange about a request on its way from
--   client to host.
-- Desk: crates/ra-desk/src/agent_runner.rs, the state of the agent inside the desktop application;
--   Window main.rs, the state of the application and its operations, with Messages for drain, the
--   wizard's steps, new and on_exit; Setup setup.rs. Window.Kept and Window.Actions prove.
-- Fakehost: crates/ra-fakehost/src/main.rs, the stand-in for Apollo of the end-to-end tests: its
--   handlers over the state that they share. Sessions and WebApi prove.
-- Examples: the theorems at concrete inputs, and tests.
--
-- Clocks, random draws, the file system and what other tasks do while a long poll sleeps are arguments.
-- An Instant is a number of nanoseconds. A loop that waits runs over the list of its rounds to come,
-- and answers `none` where it goes on after the last one; a long poll keeps its own clock, which moves
-- by the time of each round and of each sleep. The state file is written and read by a codec, which
-- stands for serde_json. The search for a free ID has fuel, and ends where one of that many draws is
-- free; the pairing driver has fuel, for which 5 rounds are enough; decimal digits, chunks and UTF-8
-- decoding recurse on fuel that their own callers choose large enough.
--
-- Of the loop of the agent the theorems take the first n rounds, for every n. What happens while a
-- client waits for the result of its pairing is a list of happenings in their order. A panic is an
-- error of the model, after which nothing is said of the state.
--
-- The writes of a task of the desktop application that is being stopped may come at any time after.
--
-- Not modelled: routing, the texts of JSON and TOML, and logging; the Notify handles, which only cut a
-- sleep short; the construction of TLS clients and servers; the modes of files; the processes of
-- Moonlight; the command lines; the widgets of the user interface, and the services of the operating
-- systems.
pub mod Base
pub mod Proto
pub mod Rendezvous
pub mod Gamestream
pub mod Host
pub mod Client
pub mod Desk
pub mod Fakehost
mod Examples
