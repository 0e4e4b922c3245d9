-- ===== src/Lib.antt =====
-- nosql-gql-dbms: a document database in one data file (dbms/), its server, and the client that makes
-- requests of GraphQL-like queries (GQLclient/).
--
-- The program keeps typed documents in a file of sections. User commands (dbms/src/user/user.c) find
-- types and documents through an iterator over the sections (dbms/src/json/iter.c), check them
-- against a query (dbms/src/query), and write, read, update and delete trees of documents
-- (dbms/src/file/file.c). A section (dbms/src/section) is 8192 bytes: a header of four words, items
-- that grow upwards behind it, and records that grow downwards from its end. Everything goes through
-- one stream. The client turns the syntax tree of a query into a request (GQLclient/Node.hpp), and the
-- request into a message of protos/dbms.proto; the server turns the message into a command
-- (dbms/include/network/request.hpp), runs it and answers with documents.
--
-- The files of this library:
--   Base      shared names: `size_t` arithmetic, the bytes of words, lists, and `Status` as an
--             outcome with a state (OK with results, FAILED with the state as it is then, or a fault).
--   Stdio     the stream: fseek, ftell, fread and fwrite, and the macros of include/utils/utils.h.
--   Text      dbms/src/utils/string.c.
--   Json      dbms/src/json/json.c and entity.c and dbms/src/object: Json/Entity is `Entity` and its
--             ten words, Json/TypeDef is `Type`, `Attr` and their entities, Json/Compare the
--             comparisons, the check of a document against a type and the search of a son, Json/Memory
--             what the destructors of dbms/src/json and dbms/src/object free, and Json/Pair the pairs
--             of dbms/include/utils/pair.h with the comparisons by memcmp.
--   Query     dbms/src/query: the check of a document against the items of a query.
--   Section   Section/Header is header.c, Section/Record what both kinds of section do to write a
--             record, Section/Extents is extents.c and Section/Types is types.c. The proofs are in
--             their children: of Header, Laws and Compress (the loop over cleared bytes); of Record,
--             Laws; of Extents, Write, Slots and Read (one operation each), RoundTrip, Cells (the
--             section as a list), Update, Boundary, Delete and Frame; Section/Within is what an
--             operation leaves of the rest of the file; of Types, Put, Attrs, RoundTrip and Cells.
--   File      dbms/src/file/header.c and file.c: File.antt has the file header and the lists of
--             sections, File/Layout where they lie, File/Docs the documents, File/TypeDefs the types,
--             File/Find file_find (Laws: what a search gives). File/WellFormed is the invariant of a
--             file and the nodes that stand in it; File/Put, Grow, Place and Relink are the steps of
--             file_write (an operation on one
--             section, a new section, the search of a section, the links and the header); File/Tree is
--             a tree of documents in a file, with Write, Read and RoundTrip. File/TypeDefs/Held is the
--             lists of types that a file stands for, Grow a new section of types, Add and Find the
--             addition and the search.
--   Iter      dbms/src/json/iter.c; Iter/Laws is the way of an iterator through the file, and
--             Iter/Memory what the destructors of dbms/src/query and of an iterator free.
--   User      dbms/src/user/user.c; User/Laws is an insert on its branches and what is read behind it.
--   Collection  LIST_DEFINE of dbms/include/utils/list.h, over a heap of elements: Chain is how they
--             follow each other, Laws, Set, Delete and DeleteNext are the functions; Copy is type_cpy of
--             dbms/src/object/type.c, which moves the elements of a list.
--   Network   protos/dbms.proto and dbms/include/network/request.hpp; Network/Server is driver.hpp,
--             response.hpp and the calls of dbms_server.hpp; Network/Laws and Answer are what messages keep,
--             Network/Execute is what the server does on a READ, and Network/Insert on an INSERT.
--   Client    GQLclient/Node.hpp and GQLclient/network/request.hpp: Message is the conversions to
--             messages and back, Print the output of a document, Repr the texts of the syntax tree,
--             Rpc the calls of GQLclient/network/dbms_client.hpp and `insert` of GQLclient/driver.hpp,
--             Driver the values of the tokens there. Select follows a select query to the data base,
--             and Answered a select and an insert query back to the client.
--   Bench     dbms/src/bench/bench.c: the benchmarks, with their documents and conditions in Bench/Docs;
--             Bench/Laws is a benchmark that uses an iterator that it never gets.
--
-- How state corresponds: a section is its header in memory with the stream (`Sect`); a file is the
-- place of the next section, the lists of the headers of its sections, and the stream (`File`), and
-- a pointer to a section is its index in a list. Outputs through pointers are results. A `Json *` is
-- `null` or a node with its links. The union of a value is its eight bytes, or the text that its
-- pointer leads to; reading it as the other is a fault. The layout is that of x86-64: words of eight
-- bytes, lowest first, no padding. The list functions have their own model of memory (`Heap`); the
-- other parts have lists of values for the lists that they keep; a destructor is the list of the
-- blocks that it frees. Which elements the DTOR_FUNC of a list frees is an argument of the list
-- functions (`frees`), as path_dtor frees no Path. A message is its fields, and a member of C++ that
-- no constructor sets is an argument (`junk`). A bool is 0 or 1: reading one from another byte of a
-- union is a fault, and so is printing a key that holds no NUL as a C string.
--
-- Bounds and fuel: the loops of sect_head_cmprs_lip and sect_head_cmprs_frp and those of the two
-- loads take one round for each byte of the section at most, and are given one more. The recursions
-- along file offsets (file_read, file_delete) are given the size of the file, which a tree without
-- cycles cannot exceed (the round trip of trees shows that it is enough). The loops over a list are given
-- one more than its length. The loops of user_delete and user_update take their fuel as an argument,
-- since a document that is written again may be found again. Running out of fuel is a fault.
--
-- Not modelled: allocation (it always succeeds, and freeing is silent but in Collection and the two
-- files called Memory) and a full device (the stream takes every write); `dad` links of nodes in
-- memory, which only a destructor follows; comparison functions that only the list macro calls,
-- which are a parameter there; fclose; the output of the server, but that it reads the key; its
-- set-up by grpc; the tests; the scanner, the parser, the classes of protobuf and the stubs of grpc,
-- which are generated: what the sources use of a message are its fields, and the way of a message
-- between the client and the server (the stub, with the status that it returns and what
-- `DebugString` writes) is a parameter. Comparison of floats is a parameter (`Floats`), and so are
-- the text of a float, `std::stoi` and `std::stof`, and the clock of the benchmarks.
pub mod Base
pub mod Stdio
pub mod Section
pub mod Text
pub mod Json
pub mod Query
pub mod File
pub mod Collection
pub mod Iter
pub mod User
pub mod Network
pub mod Client
pub mod Bench
