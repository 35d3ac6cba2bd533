-- ===== src/Lib.antt =====
-- The verification library of the VOID gateway (gateway/, Go): the settlement pipeline, from the
-- frames that come in to the batches for the Escrow contract, and from the settlements to the
-- receipts that go out.
--
-- How the parts interact: the ingest endpoint parses a frame, checks the signature of a payment
-- against the key in the registry, and makes a settlement intent of it, which is put into the
-- buffered submitter, which hands batches to the Escrow client. The chain reports a settlement as
-- an event; the processor builds a signed PacketC frame for it and appends a receipt to the store,
-- an append-only file with a cache. The egress endpoints read the pending receipts and mark them
-- dispatched. A restart of the gateway reads the file again, and the events are replayed.
--
-- Base: lists measured by native numbers, byte strings, words and their bytes, Go's bit
--   operations, an association list for Go's map, decimal and hex text, and a signed difference.
-- Wire: gateway/internal/void_protocol/constants.go; Wire/Crc: ValidateFrameCRC32 of crc.go.
-- Protocol: gateway/internal/void_protocol/protocol, generated from the .ksy files.
--   Protocol/Kaitai is the interface of the runtime's stream and the parsers over it,
--   Protocol/Reads what a parser makes of the bytes. Protocol/Common: tig_common_types.go; Header:
--   ccsds_primary_header.go and snlp_header.go; Payments, Telemetry, Acks: the bodies of
--   void_protocol.go, each with its Layout, the fields at their offsets; Packet: the frame, with
--   its Layout, the parts of an accepted frame in Packet/Parts and Packet/Choice, and the bytes
--   behind it in Packet/Trailing; Lengths: the lengths of the header.
-- Registry: gateway/internal/core/registry/registry.go; Registry/Verifier:
--   gateway/internal/core/security/verifier.go; Registry/DemoKey: the two together.
-- Ingest: gateway/internal/api/handlers/ingest.go for one request: the answer, and the intent that
--   goes to the submitter. Gates and Accepted: what each body must show; Outcome, Enqueued,
--   Settlement, Refusals, Answered: the requests by their answers; Receipts: the frames of the
--   builder.
-- Receipt/Record, Receipt/Json, Receipt/Store: gateway/internal/core/receipt/store.go. The store's
--   state is the bytes of the file, whether it is open, the map and the order. Each method is a
--   function from what the operating system does in the call (where a write stops, whether a sync
--   or a seek succeeds) and the state to the new state and the error.
-- Receipt/Store/Effect, Recovery, History, Torn: the file against the cache over sequences of
--   calls and restarts. Receipt/Store/Pending, Queue, Index, Calls: the cache as a queue; Lands: the calls that succeed.
-- Receipt/Builder: builder.go, with the layout as one list in Builder/Layout.
-- Receipt/Processor: processor.go, for one call of Handle at a time.
-- Egress: gateway/internal/api/handlers/egress.go; Egress/Drain a bouncer that polls and
--   acknowledges, Egress/Emptied that it empties the queue, Egress/Answers the status codes.
-- Chain/Client: the intent, DeriveTxNonce, NewEscrowClient and SettleBatch of
--   gateway/internal/core/chain/client.go; Client/Embedded what its init makes of the embedded files.
-- Chain/Submitter: submitter.go, one function per critical section; Submitter/Retry is the retry
--   loop of submit, and Submitter/Schedule a step relation of all interleavings.
-- Chain/Watcher: Poll and the decoding of logs of watcher.go, over what the node answers;
--   Watcher/Cursor the cursor; Watcher/Run: NewWatcher and Run over the rounds of the ticker, and
--   the loop over a chain that loses no blocks in Run/Blocks, Reading, Once and Whole, over nodes
--   that answer in Run/Live, and the polls that fail in Run/Failing.
-- Server: the start in gateway/cmd/server/main.go, over what the environment, go-ethereum and the
--   operating system answer; Server/Started the started gateway at its endpoints, Server/Recorded
--   the watcher's loop with the processor as its handler, Server/Settlements the logs of the
--   escrow contract and the calls of Handle that succeed, Server/Delivered the two together, and
--   Server/Payments a sequence of requests with the submitter.
-- Server/Gateway: the gateway while it serves. Its state is the registry, the submitter and the
--   goroutine of the receipts with the store that it shares with the egress endpoints; a step is
--   a request of one of the three routes, a firing of the submitter's timer, a poll of the
--   watcher, or one call of its handler, and the theorems are about every sequence of steps. Rows:
--   the steps as calls of the store; Kept and Acked: what they leave of its rows; Tracked: the
--   settlements of a chain and the calls of Handle; Intents: the payments; Launched and Again: the
--   start, and a start over the file that the gateway has left.
-- Generator: gateway/test/utils/generate_packets.go, the golden frames of the tests, with the
--   checks and the loop that writes them in Vectors: Golden their sizes, Settles the payment at a
--   started gateway.
-- The modules named Samples, SampleEth and SampleJson hold concrete stand-ins for the parameters;
-- the modules named Tests hold concrete runs and the theorems at concrete inputs.
--
-- Parameters, since their code is not in the repository: encoding/json (Receipt.Json: a line of
-- text for a row, read back as that row, and no proper beginning of a line is one;
-- Receipt.Store.Lands.Marshals says where a theorem needs that no row is refused), the Kaitai
-- runtime's stream (Protocol.Kaitai: a reader takes its bytes from the cursor on or reports that
-- they are too few), Ed25519 (Wire.Signature: lengths, and that a signature passes under its
-- public key; nothing says that others fail), the IEEE CRC-32, go-ethereum's hex texts,
-- HexToAddress, its keys, its contract binding and its node (a filter returns logs of its range).
--
-- Fuel: the decimal text of n runs on n + 1 units, and each step divides by ten; the theorem that
-- the digits read back as n shows that they are enough. Every other loop is structural.
--
-- Not modelled: the log lines, contexts and clocks (a timer may fire at any step), the HTTP
-- framework, the cached values of the parser's getters, which are set once, calls of Handle that
-- overlap (the program makes none), a request that falls between the two calls of the store in one
-- call of Handle, a chain that takes blocks back, the command lines of the test tools, and the code
-- in C++ and Solidity.
pub mod Base
pub mod Wire
pub mod Protocol
pub mod Registry
pub mod Receipt
pub mod Chain
pub mod Egress
pub mod Ingest
pub mod Server
pub mod Generator
