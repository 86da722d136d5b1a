-- ===== src/Lib.antt =====
-- end-to-end-chat: a model of the core of the chat client, with the theorems that make it correct.
--
-- A client holds an Ed25519 key pair and a store, and keeps one encrypted session for each peer that
-- it is connected to over a websocket. A session begins with a handshake: each side sends a signed
-- ephemeral key in an envelope, both derive two AES keys from the shared secret, and from then on
-- every packet carries a counter that the receiver expects to go up by one. Inside the packets
-- travel envelopes ("signals") with messages, file announcements and information about the peer.
--
-- The files and the code:
--   Config: the constants of config/config.go.
--   Wire: the fixed-width big-endian fields (BigEndian) and the two ways in which the code handles
--     buffers: `make([]byte, size)` filled at a running offset (Writer), and a byte slice that is
--     checked and sliced at a running offset (Reader). A write or a slice that leaves the buffer is
--     the panic `out_of_range`, a copy moves what fits, and a failed check is the error of the code.
--   Signal: signal/signal.go. New is `new`, Parse is `parse`; RoundTrip has what one says of the
--     other.
--   Message: message/message.go, the codec. (*Message).Encode is `encode`, ToMessage is
--     `to_message`; Layout has the format as a value, RoundTrip, Safety and Panics the theorems.
--     Attachments has StoreAttachments. Repository has Put, Get, Update and Delete over the store;
--     its children say when the cache agrees with the table (Coherent), that every operation leaves
--     it so (Invariant), what each operation makes of what `Get` says (Changes, Puts, Updates,
--     Deletes, and Missing for ids that are not there) and that reading changes nothing (Loads).
--     Search is Search over what the index of the database finds, Hits what it gives.
--     Commands has the calls as commands on an abstract table of messages, which Refinement relates
--     to the store.
--   Keys: keys/generate.go, the hexadecimal, JSON and SQL forms of keys.
--   Store: store/. Defs has what the code takes from elsewhere as records of functions and laws (a
--     table of rows by primary key, a cache whose entries can expire, encodings), Secret the
--     encryption of what is stored, Chats, Files, Peers, Profile and Outbox the operations on the
--     tables, Records and Outbox/Laws what is read back of what was written, Sample a database that
--     meets the laws.
--   Client/State: the state of client/client.go, `Client`, with the sessions as numbered objects.
--     Peers, Files and Signals have the handlers of handleSignal, Dispatch handleDecrypted and a
--     turn of readLoop of client/handlers.go, Loop the loop and its end. Frames says which handlers
--     leave the messages as they are, Gate what a peer that is not accepted can do, Acceptance how
--     it becomes accepted, Authors what becomes of deletions and updates, Arrivals of messages,
--     Reassembly of files in chunks, which Finalize stores at the end.
--     Sending has sendMessage, EndToEnd a message on its way from one client to another, Sends what
--     a connection that takes everything makes of a sending, Steady what a sending leaves alone.
--     Invariant has the cache in every turn of readLoop, NoLimit a client whose message limit is 0.
--   Client/Outbox: queueSignal, sendMessageToPeer and flushOutbox. Flush has what one turn of the
--     loop leaves, Delivery what becomes of the whole outbox of a peer.
--   Client/FileSending: sendFile and sendAttachment; Reads has the reading of the file, Whole what
--     the peer is sent. Client/Broadcasts: the loops over all sessions, Reach whom they reach.
--   Client/Connect: handleWS of client/handlers.go and how a client dials, of client/peer.go, with
--     storeSession; Registration has under which key a session is entered.
--   Client/Api: the handlers of client/api.go, each on what was parsed of its request, with Http for
--     the status of a reply: Peers (and sessions and the outbox), Messages, Profile. Rejection and
--     Ownership have the theorems.
--   Client/Codec: encodeFileMeta, decodeFileMeta, encodeInfoResponse and decodeInfoResponse of
--     client/client.go, encodeKeyExchange and decodeKeyExchange of client/session.go.
--   Client/RateLimit: client/ratelimit.go. `allow` is Allow at a time that is given; Bounds has
--     what a limiter lets through in the long run, Burst what it answers to one call or to many.
--   Client/Crypto: the cryptography of Go's standard library, as a record of functions and of the
--     laws on which the client relies.
--   Client/Session: client/session.go. Defs has the state, Cipher `encrypt`, `decrypt`, `send` and
--     `close_conn` (closeConn), Handshake `do_send`, `do_recv`, `verify_peer`, `derive_keys` and
--     `handshake`. Channel, Refusals, Agreement and Authentic have the theorems.
--   The modules named Tests apply the theorems to concrete values.
--
-- Operations that can fail return an `Outcome` (Base/Outcome): a value, an error of the code, or a
-- panic with its cause. An operation that changes a session returns the new session beside the
-- outcome, since some of them change it before they fail. A byte is a natural number and a buffer a
-- list of them; the fixed arrays (keys of 32 bytes, ids of 16) are lists whose length is a
-- hypothesis. Counters wrap at 2^64, as `uint64` does; int64 values are integers with their bounds
-- written out. Every recursion is structural. The loop that reads a file is bounded by a number of
-- turns, for which its callers give the number of bytes: each turn takes at least one of them, so
-- that this is enough.
--
-- The handlers of the client are operations on its whole state; where the code logs a failure and
-- returns, they end with a value of `Warning`. What the code draws or reads from outside (nonces,
-- fresh ids, the clock) is an argument, `Draws`, and so is the order in which Range visits a map. A
-- statement of the database can fail, and then changes nothing; a query that succeeds gives the row
-- that was written last under its key. Whether a query fails is part of the state of the database,
-- which a statement on another row leaves alone. The rows of the outbox come in an order that is
-- known only for times that differ, and no theorem relies on it.
--
-- Not modelled: the websocket connection, its deadlines, pings and the mutexes (what a connection
-- does is an argument of the operations that use it, and calls come one after the other); dialing,
-- the upgrade, forms and JSON, of which the handlers take what was parsed; the handlers that list
-- peers, sessions or messages, and the query of the full-text index, an argument of the search; the
-- loop of ConnectToPeer that dials again; Listen, Shutdown and the start-up code; the files of
-- keys; a read error in the middle of a file that is sent; logging and the texts of errors.
pub mod Base
pub mod Wire
pub mod Config
pub mod Keys
pub mod Signal
pub mod Message
pub mod Client
pub mod Store
