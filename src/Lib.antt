-- ===== src/Lib.antt =====
-- Aimless Onions: a mix network prototype in which relays own parts of a binary tree of identities.
--
-- The program's parts. Authorities (aimless-onions/src/bin/authority.rs) register relays, share the
-- tree of 2 ^ 32 identities out among them by weight (src/allocation.rs over src/nodename.rs) and
-- issue keys for the nodes of the tree. Clients wrap messages in layers for random identities, relays
-- unwrap and pass them on, and a board shows the messages that arrive.
--
-- What models what, with paths below aimless-onions/:
-- - NodeName.antt, src/nodename.rs: the record NodeName and one function for each method, and those of
--   NodenameMapper. The loop of `canonicalized` is `clear_bits`, that of `walk` is `walk_up`. Children:
--   Canonical (the constructors), Family (parents and children), Leaves and Split (which identities lie below a
--   node), Walk, Digits and Matrix (the mapper).
-- - Allocation.antt, src/allocation.rs: `allocate` with its sort (`sort_by_key`), its scaling
--   (`scale_all`), the binary heap (`pop_heap`), the map of allocations (`insert_empty`, `push_node`)
--   and its loop (`run`, one call of `round` for each turn). Children: Heap, Cells, Weights (the parts),
--   Round and Loop (the invariant), Shares (what the relays get), Depth and Entries (the result), Sorting, Alike,
--   Renaming, Twins and Agreement (that neither ids nor order matter).
-- - Wire.antt and Onion.antt, src/format.rs: Wire holds the records and sizes, Onion one function for
--   each function and method; `Onion::unwrap` is cut in three (`unwrap`, `unwrap_with_nonce`,
--   `decipher`), the loops of `wrap` are `gen_nonces`, `compute_fillers` and `wrap_layers`.
--   Children: Shares, Header, Ready, Layer and Sealing (one layer), Filler, Route, Path and Delivery (all
--   of them), Refusal, Sizes.
-- - Crypto.antt: the crates that format.rs calls, as a record of operations, and what is relied on of
--   them. Sample.antt and its children: simple functions with these laws.
-- - Outcome.antt: values, `Err`s and panics, with the `?` operator.
-- - Authority.antt, src/bin/authority.rs: the two stores, the handlers, `allocate` (`allocate_epoch`
--   with the loops `reverse_keys` and `insert_allocations`), `advance`, and the first half of a turn of
--   the epoch loop (`allocation_turn`). Its child Server has the routes (`serve`) and the task of the
--   epochs (`continue_task`), as steps in any order (`run_events`). Registry: registrations. Serving:
--   what is answered after an allocation. Keys: the keys handed out. Ids, Allocating and Epochs: any
--   requests and epochs. Shares and Turns: what each relay gets. Agreement: that authorities agree.
--   Handover: the switch of epochs. The record Bbg stands for the crate hohibe.
-- - Hibe.antt, src/hibe.rs: CachedBbgKeygen with one function for each method; the groups of the crate
--   bls12_381_plus are the record Curve with the laws IsCurve. Cache: the products. Scheme: the keys
--   as the scheme defines them. Keys: the keys that are generated and derived.
-- - Relay.antt, src/bin/relay.rs: `get_private_key` with its loops (`find_key`, `derive_down`) and
--   `relay_onion` up to the sending. Its child Network has what is sent (`perform`, `send_onion`), the
--   registration and the loop over the epochs (`epoch_turn`, `epoch_loop`). Keys: the keys derived.
--   Derivation: the same with the generators of Hibe, which fill the record Keygen. Forwarding: what
--   becomes of an onion. Kept, Live, Registering and Epochs: the live authorities.
-- - Client.antt, src/bin/client.rs: one function for each function and method; `main` is `start`,
--   `epoch_turn`, `send_lines` and `send_random`. Keys: the keys fetched. Epochs: their exchange.
--   Sending: which relay an onion goes to, and that the relays can unwrap it. Main: the end of `main`.
-- - Effects.antt and Net.antt: steps that change the world, and the crate reqwest, the clock and the
--   files as a record of operations. Net/Sample.antt: a simple network. Net/Clock.antt: waits.
-- - System.antt: the parties together. Received and Issued: the relay that an authority names has the
--   keys. Agreed, Parties and Fetching: those of all authorities. Journey and Posting: the way of an
--   onion from the client to the board, from relay to relay; that the relays' requests arrive is not
--   part of it. Arriving: all of it, from the registries of an epoch to the board. Sample: a small
--   epoch.
-- - Maps.antt: hash maps with byte arrays as keys.
-- - Board.antt, src/bin/board.rs: the three handlers, over the list of messages and the log, whose
--   writing is the record Csv (the crate csv and the file). Tidy: one post. Posts: sequences of posts.
--   Routes: the page and the routes. Traffic: sequences of requests.
-- - Shared.antt, src/shared.rs: messages, the times of an epoch, waits. Epochs: when epochs begin.
-- - Consensus.antt, src/consensus.rs. Tools and its children: src/bin/allocate.rs (`main` of Allocate),
--   src/bin/onion_sizes.rs (OnionSizes, with Exact on the sizes) and, beside aimless-onions/,
--   tor-diff-size/src/main.rs (TorDiff, with Digest on the signed part).
-- - ApiTypes.antt, src/apitypes.rs: the types that the parties exchange.
-- - Prelude.antt: shared names, lists, sums, machine words, bit operations, powers of two.
--
-- Conventions. An integer is a natural number and its wrap-around is written out; subtraction and
-- shifts are those of a release build. A panic (a failed assert, expect, unwrap or a division by
-- zero) is `none` in the node names and the allocation, and `panic` in the onion format, the board, the
-- authority and the relay. A random number generator is a state that is passed on. A hash map is a
-- list of entries; the order in which Rust iterates over one is not fixed, and the list order is one
-- of the possible ones. The binary heap is a list from which a largest element under `partial_cmp` is
-- taken; requests of equal weight and key are the only ties.
--
-- Fuel. `walk_up` gets 33 rounds, one more than its array has room for. `run` gets 2 ^ 32 + 34
-- rounds: each either places a unit of weight at least, out of 2 ^ 32, or goes down a level, of 32.
--
-- Not modelled: command lines, the reading of configurations, the serving of connections with TLS, and
-- logging by tracing; the choice of delays in f64; the set-up of the Tor client of tor-diff-size/;
-- sphinx-benchmarks/, a copy of another project's library; scripts and benchmarks. `advance` takes the
-- locks of the four stores one after the other and is one step here, so a registration in between is
-- not described. Panics of a task end the runs of `run_events` and of the loops over epochs, so nothing
-- is said of what handlers do after.
pub mod Prelude
pub mod NodeName
pub mod ApiTypes
pub mod Outcome
pub mod Wire
pub mod Crypto
pub mod Onion
pub mod Sample
pub mod Allocation
pub mod Shared
pub mod Board
pub mod Authority
pub mod Maps
pub mod Effects
pub mod Net
pub mod Client
pub mod Hibe
pub mod Relay
pub mod Consensus
pub mod Tools
pub mod System
