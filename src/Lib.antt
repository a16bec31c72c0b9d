-- ===== src/Lib.antt =====
-- deltabase: a relational database server in C++. A client's statements are parsed, planned and
-- executed against tables whose rows stand in data pages and whose indexes are B+ trees in index
-- files; changes are written ahead to a log, from which a restarted server recovers. What is modelled
-- here are the lower half and the front end: memory streams, the stored formats, the write-ahead log,
-- the recovery from it, the transactions that write it, the cache of the buffer pool, the B+ tree of
-- an index, the lexer and the parser of the SQL statements, the comparisons of conditions, and the
-- messages and results that the server exchanges with a client. All paths below are under
-- deltabase/src, but for those of the client, Deltabase.Data/Internal/Protocol/StdProtocolImpl.cs and
-- Deltabase.Data/Internal/Utils/DataTypeMapper.cs.
--
-- Prelude           Boolean tests, lists over native numbers, and an interface for decidable
--                   equality.
-- Stream            misc/memory_stream.cpp. Stream.Word: unsigned integers as the bytes that memcpy
--                   copies. Stream.Write: MemoryStream (write, append, seek). Stream.Read:
--                   ReadOnlyMemoryStream and the monad of readers that the deserializers are written
--                   in; `Parses` says that a reader takes given bytes wherever they stand.
--                   Stream.Cut: readers that refuse bytes which end too soon.
-- Types             types/include. Types.Value: tokens, rows and UUIDs. Types.Meta: schemas,
--                   columns, indexes and tables. Types.Page: data pages, index pages and index
--                   files. Types.WalLog and its children: the 25 kinds of log record of wal_log.hpp.
-- Storage           storage/std_storage_serializer.cpp. Storage.Encode: serialize_* and the writers;
--                   Storage.Decode: deserialize_* and the readers. Their children prove the layout
--                   of what is written and that it is read back.
-- Wal               wal/. Wal.Txn, Wal.Data, Wal.Schema, Wal.Table and Wal.Index have the writer and
--                   the reader of each kind of record (std_wal_serializer.cpp), Wal.Serializer puts
--                   them together, Wal.Locals has the part that all readers share. Wal.Manager is
--                   file_wal_manager.cpp.
-- Recovery          recovery/recovery_manager.cpp. Recovery.Io: the operations of IIOManager that it
--                   calls, as an interface with laws. Recovery.Kinds: the variants of records that
--                   it tells apart, and make_clr. Recovery.Pages: the changes of a page.
--                   Recovery.Redo, Recovery.Analysis and Recovery.Undo: the three passes, with the
--                   proofs in their children.
-- Transactions      transactions/transaction.cpp: begin, append_log and commit over the log manager.
--                   Transactions.Runs has the steps of several transactions on one log.
-- Cache             misc/include/cache.hpp and LRU_policy.hpp: the cache of the buffer pool.
--                   Cache.Keys has lists of distinct keys, Cache.Bounds the invariant, its child
--                   Evictions what an eviction does when the flusher gets through and when it
--                   throws.
-- Sql               sql/lexer.cpp and sql/include/dictionary.hpp: the words and the loop of the
--                   lexer, on a query as the list of its characters. Sql.Lexer.Ends and
--                   Sql.Lexer.Stuck have when it ends. Sql.Ast: the syntax trees. Sql.Parser:
--                   sql/parser.cpp, with the position and its monad in Sql.Parser.Cursor, the
--                   expressions in Sql.Parser.Expressions, and the statements in Sql.Parser.Columns,
--                   Queries and Definitions. Sql.Parser.Expressions.Grammar is the language of
--                   expressions as a grammar, and its sibling Parses that the parser implements it.
--                   The children Ends and Sql.Parser.Total have when the parser ends,
--                   Sql.Parser.Refusals what it refuses.
-- Net               network/. Net.BigEndian: sizes with the highest byte first. Net.Message: the
--                   messages, types/include/net_message.hpp and net_error.hpp. Net.Protocol:
--                   std_protocol.cpp, with the round trip and the refusal of truncated messages in
--                   its children. Net.Results: query_result_serializer.cpp; Net.Results.Client is
--                   what a client reads from it, with the types and objects that it makes; its child
--                   Sent is about a client and a server.
-- Index             storage/index_bplus_tree.cpp. Index.Keys: the order of tokens,
--                   types/data_token.cpp. Index.Pager: BP_index_pager.cpp. Index.Tree: find and
--                   insert with the splits; its children Found, Bounds, Ends and Dangling have the
--                   results, Index.Tree.Results the lemmas on calls that return, Index.Tree.Sizes
--                   those on how many pages there are.
-- Evaluator         executor/evaluator.cpp: the comparison of two tokens. How doubles compare is a
--                   parameter.
-- Tests             the definitions at concrete inputs.
--
-- Correspondence. A C++ struct is a record with the same fields; an enum class or a std::variant is a
-- data type. A method that changes its object takes the object and returns it. An exception is `none`
-- in the readers and `threw` in the log manager, the parser and the cache. Bytes are natural numbers
-- below 256 in a List, a UUID is the list of its 16 bytes, a uint64_t is a native number with its
-- wrap-around written out where the code counts (LSNs). Predicates named Is... (IsRow, IsPage,
-- IsWalRecord) say that every number fits the field it is written to, and every UUID has its 16
-- bytes. The readers of the log ignore how many bytes a read delivered: what the uninitialised local
-- then holds is an argument (Wal.Locals.Locals). A method of the parser returns a value and the
-- parser behind it, throws, reads through a null pointer, or has used up its fuel
-- (Sql.Parser.Cursor.Outcome), a method of the tree likewise (Index.Tree.Result). The file of an
-- index is the one that the buffer pool holds, and a pointer to one of its pages is the id of the
-- page. create_page moves the pages when their vector is full: the capacity of the vector is an
-- argument of the insertion, and where a pointer taken before is used after the pages have moved, the
-- result is `dangling`. A method of the cache returns, throws with what it had changed before, or
-- takes the last key of an empty list (Cache.Outcome); a flusher may throw. In the protocol, bytes
-- that cannot be read are answered by the message of a violation.
--
-- Concurrency. Every method of FileWALManager holds the mutex of the database for all of its run, so
-- a method is one step and an execution a sequence of them.
--
-- Failures. The file system may fail in the middle of a flush: `Fault` says how many records were
-- written whole and how many bytes of the next one. Log files are an association list from the first
-- LSN in their names to their bytes.
--
-- An exception ends the recovery; what it had done before is not followed further. UUIDs are compared
-- by libuuid's uuid_compare, which stands as an instance of Eq: a test that decides equality.
--
-- Fuel. The loop that undoes a transaction gets as much fuel as its last LSN, since every round goes
-- to a lower LSN. read_logs_from_file reads at most as many records as the file has bytes, so that
-- its fuel is the number of bytes and one; wait_for_durable is given two rounds or more; lex has a
-- round for each character, the parser three calls for each token. The search of a tree has fuel for
-- the pages on a path, one more than the levels of the root. That these are enough is part of the
-- results on opening, on waiting, on the lexer, on the parser and on the tree.
--
-- Not modelled: the planner, the semantic analyzer and the node executor, the buffer pool above its
-- cache, the catalog and the database instances, file access other than the log files, the sockets
-- and threads of the network server, the command line, and the dump tools. They are either input and
-- output, or stand above what is modelled here. In the client, how UTF-8 is decoded is a parameter,
-- and memory that runs out is not followed, but for arrays longer than the language has.
pub mod Prelude
pub mod Stream
pub mod Types
pub mod Storage
pub mod Wal
pub mod Cache
pub mod Evaluator
pub mod Sql
pub mod Net
pub mod Index
pub mod Recovery
pub mod Transactions
pub mod Tests
