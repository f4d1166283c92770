-- ===== src/Lib.antt =====
-- A verification library for sneakernet, a network of encrypted fixed-size blocks that are
-- exchanged between stores by any means and kept by proof of work.
--
-- The program's parts, and how they interact. A block is a stamp of 4 bytes and a payload of 4096.
-- Its ID is the SHA-256 of the payload, its work factor the number of leading zero bits of an
-- argon2id hash of stamp and payload. A store (blockstore/) keeps blocks by ID and lists them page
-- by page in the order of their time; relays, Bluetooth sessions and clients (transport/, client/)
-- page through that list, exchange Bloom filters of it, and put what they receive. The payload of a
-- message is a sealed plaintext of 4024 bytes (client/message_format.go, client/crypto.go), under
-- the keys of the user's keystore (client/keystore.go). A client scans a store for what its keys
-- open and keeps the messages in a table (client/client.go, client/store.go).
--
-- The files:
--   Prelude, Bytes, Integers, Base64: what Go and its standard library provide, as the program uses
--     it. Numbers are natural numbers, `int64` values are ℤ with a range, byte strings are lists of
--     numbers below 256, slices and `copy` are in Prelude/Slices.
--   Blockstore: blockstore/blockstore.go (`encodeCursor` is encode_cursor, `decodeCursor` is
--     decode_cursor). Blockstore/Paging is the loop over the pages that the callers of `ListBlocks`
--     run; it has a fuel that counts the pages.
--   Blockstore/Pow: blockstore/pow.go. SHA-256 and argon2id are the fields of the record Hashes:
--     two functions to 32 bytes, of which nothing else is used. The mining loop runs over the list
--     of its rounds, each with the stamp that the random source gave, or the error that ended it.
--   Blockstore/Kv: the interface of BadgerDB, with the laws that the store relies on. BadgerDB is
--     not part of the repository; Blockstore/Kv/Table fills the interface with a sorted list.
--   Blockstore/Badger: blockstore/badger.go. `Put` is store_block up to the enforcement of the
--     storage limit, and Evict.put with it; `GetWorkFactor`, `Get` and `Has` are get_work_factor,
--     get_block and has. A database transaction is a chain of steps, each of which may fail, and
--     its commit. The clock is an argument, in nanoseconds. Blocks have no time to live, unlike in
--     blockstore/design.md. Writes, Puts and Indexed hold the proofs.
--   Blockstore/Badger/Listing: `ListBlocks`, as list_page over the items of the iterator and
--     list_blocks over a database. `ListIDs` is list_ids. Entries says which references a listing
--     is meant to hold, by the fields of the entries and not by the code that reads them. Rows,
--     Collect, Pages and Complete hold the proofs, from one item to the whole run over the pages.
--   Blockstore/Badger/Median: `computeMedianWorkFactor`, as compute_median; `none` is an error, or
--     an index out of range. `RefreshMedian` is refresh_median, `runMedianUpdater`
--     run_median_updater over the store and the time of each round, up to the store's closing.
--   Blockstore/Badger/Evict: `Evict`, as evict, and `TTLFromWorkFactor` of
--     blockstore/blockstore.go. The maps of candidates and of usage are one list of groups by tag.
--     The lifetime of a block, which Go computes with math.Pow, the clock in each round and the
--     order in which a range visits the tags are the record Settings. `int64` sums wrap around.
--     `sort.Slice` is an insertion sort, one of the orders that it may give where expiries tie.
--     Erased, Rounds, Removed, Stored and Result say what becomes of the store; Sorted, Groups,
--     Policy, Covers, Choice and Refine show that the loop follows a policy over the plain list of
--     candidates.
--   Blockstore/Index: blockstore/index.go. `search` is search, whose loop has a fuel of one more
--     than the number of records; `encodeIndex`, `parseIndex` and `OpenIndex` are encode_index,
--     parse_index and open_index, over zlib as a parameter; `writeShards` is shards, without the
--     files. Search, Format and Shards hold the proofs.
--   Relay/Bloom: transport/relay/bloom.go. Bits are bit operations on the bytes of the array,
--     checked for all bytes by evaluation. `BloomOfStore` is bloom_of_store, over any listing.
--   Hex: encoding/hex.
--   Relay/Http: what the relay's two sides share. Backend is the interface `blockstore.Store`;
--     Codecs and Addresses are encoding/json, padded base64, net and net/url, as parameters with
--     the round trips that are relied on. A request is the route that it takes, with what its
--     handler reads.
--   Relay/Server: transport/relay/server.go. `handleGet`, `handlePut`, `handleDelta`,
--     `handlePowLimit`, `handlePeers` and `handleHello` are handle_get, handle_put, handle_delta,
--     handle_pow_limit, handle_peers and handle_hello, `ServeHTTP` is serve. Headers of replies are
--     left out, and bodies are read without an error.
--   Relay/Client: transport/relay/client.go. `Get` is fetch, `Put` upload, `Delta` delta, `Hello`
--     hello, `GetPeers` fetch_peers, `GetPowLimit` fetch_pow_limit, `Pull` pull and `Push` push,
--     over a function that sends a request and may fail.
--   Relay/Remote, Relay/Pull, Relay/Push: the client over the server, by a connection that loses
--     nothing. Relay/Kept: what any requests leave alone. Relay/Store: the relay over the Badger
--     store.
--   Bluetooth: transport/bluetooth/session.go. `writeFrame` and `readFrame` are write_frame and
--     read_frame, `runSend` is run_send and `runRecv` is run_recv, over any `ListBlocks`, `Get` and
--     `Put`. Since the receiver puts while the sender runs, the sender has one listing for the
--     filter and another for the loop behind the peer's filter. Writes succeed. The channel between
--     the two is what the receiver sent on it and whether it was closed, and for the sender what
--     ended its wait. Frames and Session hold the proofs.
--   Client/MessageFormat: client/message_format.go. The errors are constructors of a result type.
--     Ed25519 is the record of that name: a signature verifies under the signer's public key.
--   Client/Crypto: client/crypto.go. The record Primitives holds what Go's libraries provide; Laws
--     says what is relied on, which concerns opening what was sealed and agreeing on a secret, not
--     secrecy. What is drawn from crypto/rand is an argument, and each draw may fail. `Encrypt`,
--     `EncryptSigned` and `tryDecrypt` are encrypt, encrypt_signed and try_decrypt, those of
--     channels have `_channel` in the name. Direct, Channels and Authentic hold the proofs.
--   Client/Keystore: client/keystore.go. The operations on the keystore in memory, each to a new
--     keystore or an error; Files and Loading have the format of the file, `Save` (save) and
--     `LoadKeystore` (load_keystore), over a disk that is the file and the temporary file beside
--     it; Transfer has `ExportIdentity` and `ImportIdentity`. JSON, argon2id, the AEAD and whether
--     a write or a renaming succeeds are parameters. Named, Valid, Invariant, Saved, Reload and
--     Migration hold the proofs.
--   Client/Inbox: client/store.go. The tables are lists of rows, and the SQL statements list
--     operations.
--   Client/IdPow: client/idpow.go, with argon2id and `strings.TrimSpace` as parameters. The mining
--     loop runs over the list of its rounds.
--   Client/Scrape: client/client.go. `Scrape` is scrape, over a record of what surrounds it: the
--     pages of the block store, its blocks, the held keys, the clock, and whether the database
--     answers.
--   Mobile/Peers: mobile/peertracker.go. The map is an association list; a range over it takes its
--     order. `normalizeURL`, which rests on net/url, is a parameter.
--   Tests: runs at concrete inputs.
--
-- Fuel: the loop over pages takes one unit for each page. For the traversal listing, more units
-- than there are entries are enough, since every page but the last has at least one entry. The
-- receiver's loop takes one unit for each frame, the binary search one for each step. Eviction
-- recurs on the number of blocks that it may still evict. The sender has a fuel for each of its two
-- listings.
--
-- Not modelled: opening, closing and garbage collection of the database (blockstore/badger.go), the
-- flat file store (blockstore/flatfile.go) and the scan of its files for the index, the creation of
-- the tables and the lists of messages (client/store.go), the relay's web application and its table
-- of address ranges (transport/relay/webapp.go, geoip.go; a classifier of addresses is a parameter
-- of the server), the exchange of peer addresses behind a Bluetooth session, discovery
-- (transport/lan/), the mobile engine (mobile/engine.go) and the file of the peers, the HTTP API,
-- the command line and the user interfaces. Those are input and output, or parts that build on the
-- ones above.
pub mod Prelude
pub mod Bytes
pub mod Integers
pub mod Base64
pub mod Hex
pub mod Blockstore
pub mod Relay
pub mod Client
pub mod Bluetooth
pub mod Mobile
pub mod Tests
