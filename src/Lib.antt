-- ===== src/Lib.antt =====
-- A verification library for the Go parts of NDN-DPDK: NDN's packet encoding and names, the packets, the
-- tree of FIB entries, and the logical forwarding plane in Go.
--
-- Parts of the program, and where they are modelled:
--   * ndn/tlv is the TLV codec. Tlv/VarNum and Tlv/Nni model VarNum and NNI; Tlv/Element models Element
--     with Element.Decode; Tlv/Decode models DecodingBuffer, DecodingElement and Decode; Tlv/Encode
--     models Field, EncodingBuffer, TLV, TLVFrom, TLVBytes, TLVNNI, Encode and EncodeValueOnly.
--   * ndn/name-component.go and ndn/name.go stand on it: Name/Component and Name model NameComponent
--     and Name with their sub names, their canonical order and their encoding; Name/Uri models their text.
--   * ndn/lp.go and ndn/packet.go put a link header around packets and split them: Lp models LpL3,
--     LpFragment, the Packet that is sent, and LpFragmenter. Packet models the decoding of frames, and Nack
--     of ndn/nack.go; Reassembler models LpReassembler with its partial packets.
--   * ndn/sig-info.go and ndn/signing.go describe signatures: SigInfo models KeyLocator, SigInfo and the
--     signers without keys. ndn/interest.go and ndn/data.go use them: Interest and Data model these
--     packets with MakeInterest and MakeData, their encoding and decoding and the digest of the parameters,
--     Interest/Parts the types of the fields of an Interest, and Data/Checks the digest of a Data, SignWith,
--     VerifyWith and CanSatisfy.
--   * ndn/segmented fetches objects in segments: Segmented models the segment numbers in names, Ordered
--     and EstimatedTotal of fetch.go; what Unordered delivers is an argument of Ordered. Segmented/Serve
--     models the handler of Serve, which runs in a producer.
--   * container/ndt/config.go and replica.go configure the Name Dispatch Table: Ndt models applyDefaults
--     and the sampling mask.
--   * container/fib/fibdef describes FIB entries: FibDef models EntryBody.Equals and Entry.Validate
--     and the update commands.
--   * container/fib/fibtree keeps these entries in a tree by name and says which updates the tables in C
--     need: FibTree models Tree with List, Find, Insert and Erase and the Revert of their updates,
--     FibTree/Nodes the nodes and the walks over them.
--   * ndn/l3/forwarder.go and ndn/l3/fwface.go route packets between faces by name: Forwarder models
--     the state of the forwarder and of its faces and the functions that the loop of the forwarder runs,
--     one after the other; Forwarder/Token models the PIT tokens.
--   * ndn/l3/face.go joins a transport with the packets above it: Face models NewFace and its two loops on
--     top of Lp, Packet and Reassembler.
--   * ndn/endpoint holds consumers and producers: Endpoint/Consumer models Consume with its
--     retransmissions, Endpoint/Producer the replies to Interests.
--   * dpdk/ealthread gives lcores to the roles of an application: Ealthread models Config, AllocConfig and
--     the freeing of lcores.
-- A function has the name of the Go function in lower case with underscores. The modules below these
-- hold the lemmas and theorems; Shared holds what all of them use, Tests the concrete runs.
--
-- How the code is represented. A byte slice is a list of natural numbers, a uint64 or uint32 is a
-- natural number with the bound as a hypothesis where it matters, an int that can be negative is an
-- integer, and the conversion int(x) of a uint64 is its two's complement reading. A function with an
-- error result returns `ok`, `err` with the error value of the code, or `panic` where the program
-- panics. A map is an association list in the order of its range loop, so that a theorem on every list
-- holds for every order. Pointers to faces are handles, numbers that are given out in order; channels
-- and calls of other goroutines are events that a function returns.
--
-- Bounds and fuel. Lengths of slices are below 2 ^ 63, as an int is. The loop of Elements runs on fuel,
-- the length of the buffer: an element takes off two bytes at least, so that the loop ends before the
-- fuel does. The loop of Fragment over the payload has the length of the payload as fuel, since a round
-- takes a byte at least; the inner loop of Ordered has the size of its buffer, which shrinks in each
-- round. A number in a URI is written with ten digits as fuel, and a uint32 has no more.
-- The loop of Consume has one more than the limit on retransmissions as fuel, since a round without an
-- end counts up to that limit. AddFace takes the random numbers that it draws as a list; without an id that is free the
-- code draws on and the model has no result.
--
-- A time.Duration is a signed number of nanoseconds. A nil pointer is `none`, and so is a nil slice where
-- the code tells it from an empty one. UnmarshalBinary methods return what they set; what is left in the
-- receiver after an error is not modelled. A node of the FIB tree holds its children.
--
-- Parameters. SHA-256 is a function argument, and so are the extension types that other packages register
-- and the Nonce that is drawn; the cache of the reassembler, an LRU of a third-party package, is a record of
-- its operations. The announcements of the forwarder are a setmultimap of a third-party package, here a
-- record of its operations and their laws. The Unmarshaler of Decode is a function argument. The random
-- number of NewLpFragmenter is an argument, and so is the third-party NextPowerOfTwo. What the face does in
-- a try of Consume is an argument, and so are the intervals between the tries, which are floating point
-- numbers. The source of Serve is an io.ReaderAt, here a function with what its documentation says.
-- The orders of the map of unused workers and of the second range loop over a Config are arguments, as are
-- the sockets of lcores and the limit of DPDK on the number of sockets.
--
-- Not modelled: the String methods of packets, the pipeline of segment fetching, which depends on
-- clocks and on floating point numbers, the keys of ndn/keychain, sockets, the other containers, and the
-- bindings of C code and of DPDK.
pub mod Shared
pub mod Tlv
pub mod Name
pub mod Lp
pub mod Segmented
pub mod Ndt
pub mod FibDef
pub mod FibTree
pub mod SigInfo
pub mod Interest
pub mod Data
pub mod Packet
pub mod Reassembler
pub mod Forwarder
pub mod Face
pub mod Endpoint
pub mod Ealthread
pub mod Tests
