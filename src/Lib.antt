-- ===== src/Lib.antt =====
-- Verification of mmkvc, the C++ client library of the key-value store mmkv: the binary protocol MMBP
-- that it speaks with a server, and the containers that store and client share.
--
-- How the program fits together. A client builds an `MmbpRequest`, serialises it into a frame with
-- `MmbpCodec` and sends it over a connection; the server's answer comes back as frames, from which the
-- codec's read callback takes one message after the other and hands each to a message callback, which
-- parses an `MmbpResponse` and fills an `MmkvValue`. Requests and responses are a fixed head, a byte of
-- bits that says which fields follow, and those fields, each written and read by the component functions
-- of mmkv/protocol/mmbp_util.h. Underneath, `HashTable` keeps entries in chains (`Slist`) over an array
-- (`ReservedArray`) and rehashes by one chain at each operation; `AvlTree` keeps them sorted, and
-- `TreeHashTable` is a hash table whose chains are such trees.
--
-- Which file models which part:
--   Prelude     Boolean tests, lists over native numbers, a bound on masks; shared by all files
--   External    what the program calls and does not hold: kvarint (External.Varint), kanon's Buffer and
--               ChunkList (External.ByteBuffer) and the 32-bit hash of XXH32 and Xxh32Digest
--               (External.Checksum), as records of operations with their documented laws; every
--               definition that uses one takes it as an instance argument
--   Protocol    mmkv/protocol
--     Parser      the effect of parsing: a value and the buffer that is left, `return false`, or a run
--                 that goes on past what it has (`stray`); and the rules to put parsers together
--     Types       type.h and mmkv/algo/key_value.h
--     HasBits     SetBit and TestBit of mmbp_util.h
--     Component   SerializeComponent (Serialize), ParseComponent over a Buffer (Parse), the bytes of each
--                 kind of field (Image), reading them back (RoundTrip), sizes that go wrong (Limits)
--     Request     mmbp_request.h and mmbp_request.cc: fields, bits, Reset, SerializeTo, ParseFrom;
--                 Image is the bytes of a request, RoundTrip and View what a receiver makes of them
--     Response    mmbp_response.h and mmbp_response.cc, in the same way
--     Codec       mmbp_codec.h and mmbp_codec.cc: SerializeTo and Send, VerifyCheckSum, the read callback
--                 of SetUpConnection (open_frame, check_header, turn, turns, on_read) and the default
--                 error callback (error_reply); Frame is the bytes of a frame, Deliver and Sound say when
--                 a turn delivers, ErrorReply what a peer makes of the reply, Stream is the whole loop
--   Algo        mmkv/algo
--     ReservedArray  reserved_array.h, by the elements of the array
--     Slist          slist.h, by the values of the nodes
--     Keyed          the template parameters HF, EK and GK of a hash table, with the laws of an equality
--     HashTable      hash_table.h and internal/hash_table_impl.h: Table and HashTable with Rehash,
--                    IncrementalRehash, insertion, FindSlot, Extract, Erase and Clear. Chain, Bucket and
--                    Move are the laws of one chain and of one table, Valid the invariant of a hash table
--                    and its view as a map, KeyMap the operations on that map, Rehash and Settle the
--                    steps of rehashing, Emplace and Insert insertion, Replace, Search and Extract
--                    searching and taking off, Clear the empty tables. Clone is Clone, with its loops in
--                    Loops and what the copy holds in Copied
--     Ordered        the template parameters Compare and GK of a tree, with the laws of an order; Sorted is
--                    sorted lists, Reference what the operations mean on them, Hashed an order with a hash
--     Comparator     comparator_util.h: the comparators of numbers
--     AvlTree        internal/avl_node.h, avl_util.h, avl_tree_base.h, avl_tree_base_impl.h, avl_tree.h.
--                    Node is nodes, rotations, _InsertFixup, _EraseFixup and _Erase, Ops the tree with
--                    FindNode, LowerBound, UpperBound, the insertions, Extract and Erase. Walk is the
--                    iterator functions, Visit DoInAll and ReuseAllNodes. Inorder is the values from left to
--                    right; Balance, Retrace, Unlink and Balanced are the shape of trees, Bounds their
--                    height and the length of a search; Locate, Insert and Search what the operations find and change
--     TreeHashTable  internal/tree_hashtable.h and tree_hashtable_impl.h: two arrays of AVL trees, with
--                    Rehash, IncrementalRehash, the insertions, FindNode, Extract, Erase, Clear and
--                    ClearApply. Sorted and Keeps are about the order in the trees. Chains reads a table as one
--                    of chains, the values of a tree from left to right, so that HashTable's view as a map
--                    and its steps serve here: Bag and Moving are about moving the nodes of a tree,
--                    Settling about rehashing, Planting, Outcome and Inserting about insertion, Extracting
--                    about taking off and searching, Emptying about the empty tables. Cleared is about
--                    ClearApply
--     TableIterator  internal/hash_table_iterator.h and tree_hash_table_iterator.h: begin(), end() and ++
--                    over any kind of bucket. Cursors is chains and trees as buckets, Visited what a loop
--                    goes through, Entries that these are the entries of a table
--     Blist          blist.h and internal/bnode.h, with the nodes in a store of addresses. Linked says
--                    which lists are well linked, Front and Back (together Pushing) are about the pushes, Popping
--                    about the pops, Extracting about Extract (with Middle and Unlinking) and Clearing about
--                    Clear
--     HashSet        hash_set.h and internal/hash_set_impl.h: Operations is the set operations, Random
--                    EraseRandom
--   Client      mmkv/client: Value is MmkvValue of mmkv_value.h and mmkv_value.cc; Queue is MmkvClient of
--               mmkv_client.h and mmkv_client.cc: its two queues and its handlers. Order is the relation of
--               what can happen while no other call and not the connection callback comes between the halves
--               of a call, and which call gets which response; Served is what the callbacks get when the
--               server has answered. Race is two calls whose halves are interleaved, Threads the relation of
--               what can happen in any interleaving, lost connections included
--   Tests       a concrete varint code, buffer and hash, concrete messages, frames, tables, trees and
--               values
--
-- State and bounds. A byte is a number below 256; an unsigned integer of w bits is a number below 2 ^ w,
-- and its wrap-around is written out; a signed one stands as its bit pattern, a double as its 64 bits. A
-- size_t wraps at 2 ^ 64, so an empty table has the mask 2 ^ 64 - 1 and the index that means "not
-- rehashing" is 2 ^ 64 - 1. Objects that the code changes in place are passed as values and returned;
-- only the nodes of Blist, whose pointers its operations change one by one, stand in a store.
-- The read loop of the codec runs on fuel: each turn that goes on takes at least one byte off the buffer,
-- so one more than the number of readable bytes is enough. The loops over a tree run on fuel
-- too: a round for each node for the loops that visit them, two rounds for each node and one more for the
-- loop that takes the tree apart, which goes down and up each edge once. `Clear` of a Blist takes one
-- round for each node. The pointers of a tree are kept apart as the subtree at a node and the path from
-- it to the root; heights are the stored fields.
--
-- Not modelled: sockets, event loops and logging; the deprecated `MmbpCodec::Parse`; parsing from raw
-- memory and vectors of fixed-width numbers; `EraseAfterFindSlot` of hash tables; `Extract` without a
-- key, `Erase` with a predicate and printing of AVL trees; `EraseNode` of tables of trees; construction
-- of `Blist`; the futures of `MmkvClient`; the configuration client, which is calls
-- of generated code; failing allocations and exceptions.
pub mod Prelude
pub mod External
pub mod Protocol
pub mod Algo
pub mod Client
mod Tests
