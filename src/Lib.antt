-- ===== src/Lib.antt =====
-- A HotStuff replica in Go: the state machine of consensus.go, the store it keeps its blocks and
-- counters in (store.go), the collections of votes and timeouts (utils.go), the loop that drives it
-- (node.go), the keys and signatures (crypto/), the encodings (encoding.go, types/types.pb.go), the
-- program around a node (hotstuff-node/main.go) and its connections (hotstuff-node/tcpNode.go).
--
-- The parts and where they stand:
--   Prelude, Exec      shared names; `Exec` is a method that mutates its receiver, state in and state
--                      out, where `crash` ends the process by a panic or a call of zap's Fatal.
--                      Exec/Moves and Exec/Ends have one rule for each way to build an action.
--   Types              the messages of types/types.proto as types/types.pb.go declares them.
--   Encoding           encoding.go.
--   Env                what is not under the repository: the database goleveldb, the hash blake2s,
--                      and the interfaces Signer and Verifier of consensus.go. `IsMap` is the
--                      documented behaviour of the database.
--   Wire               types/types.pb.go: Marshal, Size and Unmarshal of each message, from varints
--                      (Wire/Varint) and fields (Wire/Fields) up. The modules RoundTrip are about
--                      bytes that were written, the modules Yields about any bytes, Wire/Bounds and
--                      the modules Size about lengths. Wire/Fields/Written and Wire/Fields/Sized have
--                      one step for each kind of field.
--   Store              store.go and types/hash.go; Store/Iterator is ChainIterator; Store/Laws,
--                      Store/Puts and Store/Blocks say what is read after writes.
--   Progress           progress.go.
--   Utils              utils.go: Utils/Votes, Utils/Timeouts, Utils/Genesis. Utils/Votes/Abstract has
--                      the set of replicas that a collection is for, as a quotient of lists.
--   Consensus          consensus.go: Consensus/State has the struct, Consensus/Round sendMsg and
--                      nextRound, Consensus/Chain updatePrepare, update, syncView and safeNode,
--                      Consensus/Handlers the four handlers, Consensus/Machine newConsensus, Step,
--                      Start, Tick and Send. Consensus/Evolves is a relation between the states
--                      before and after any of them, Consensus/Locks the rules by which the locked
--                      and the committed block move, in terms of the replica's store and of what a
--                      message brings (`Scope`), Consensus/Ends that the methods come to an end,
--                      Consensus/VoteRule what a proposal must be to be voted for or refused.
--   Node               Node.run of node.go: `handle` is one case of its select, `poll` the test at the
--                      head of the loop, and `Reaches` any number of rounds and restarts. Node/New is
--                      NewNode with its configuration, Node/Calls has Send, Step, Start and Close with
--                      the channels between them and the loop.
--   Crypto             crypto/signer.go, crypto/verifier.go and crypto/utils.go (Crypto/Keys) over the
--                      library blssig.
--   Framing            hotstuff-node/bytes_encoding.go and the two loops of hotstuff-node/tcpNode.go.
--   Connection         the rest of hotstuff-node/tcpNode.go: the exchange of ids, handleConnection,
--                      and the loops that accept and dial, with the world's answers as a list.
--                      Connection/Messages puts the encoding and the framing together.
--   Program            hotstuff-node/main.go: addresses, dispatchMessage and main; Program/Text has
--                      strconv and strings, Program/Genesis createExampleNode, and Program/Process
--                      entryPoint around a node: `act` is one step of one goroutine, `Runs` any
--                      interleaving of them. A channel is a queue with the capacity of its make.
--                      Program/Process/Steps says when each action goes through, and Received is
--                      from one process to another.
--   FirstTransport     the directory node/, an earlier transport of strings.
--   Examples           an environment for which everything computes, runs, and the theorems at
--                      concrete inputs.
--
-- How the code is read. A uint64 is a number, with its wrap-around written out; a pointer is an
-- `Option` where the code can meet nil, and a nil that is dereferenced is a panic. A method that the
-- replica calls on itself through sendMsg is the parameter `self` of the handlers; `step_within` ties
-- the knot with a fuel that counts nested calls, and Step has a fuel of two: a proposal makes the
-- replica vote, and a vote makes it send nothing. The loops of Wire and Framing have one round for
-- each byte of their input, of which each round takes one at least. A broadcast is an empty
-- list of recipients.
--
-- Not modelled: logging and printing (and a logger that is nil before Start); which error it was that
-- the store or a reader returned (`none` says that there was one); the sharing of byte
-- slices and certificates between messages and state; a crash between two writes of one handler
-- (a restart takes the store as a round of the loop left it); in types.pb.go reflection,
-- registration, String and the getters; collectMessages and echoMessage, which nothing uses; cancelling and
-- closing of connections. Parameters are the blssig library (`Aggregates` is what it documents of
-- aggregation), the source of random bytes, the database, and the sockets, as the bytes that they
-- deliver (`World` of Program/Genesis, `Conn` of Connection).
pub mod Prelude
pub mod Types
pub mod Encoding
pub mod Exec
pub mod Env
pub mod Wire
pub mod Store
pub mod Progress
pub mod Utils
pub mod Consensus
pub mod Node
pub mod Crypto
pub mod Framing
pub mod Connection
pub mod Program
pub mod FirstTransport
pub mod Examples
