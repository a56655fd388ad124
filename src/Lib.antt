-- ===== src/Lib.antt =====
-- MiniDB++: a small relational database in C++ with slotted pages, a buffer pool, a write-ahead log,
-- transactions and SQL. This library models parts that need no file and no socket, function by
-- function.
--
-- The parts and how they meet. A statement is a text that the lexer (src/sql_lexer.cpp) cuts into
-- tokens and the parser (src/sql_parser.cpp) reads; its literals are converted to values of a column
-- (src/sql_semantics.cpp), which the schema (src/schema.cpp) accepts or refuses. A row of values is
-- stored as a tuple of bytes (src/tuple_codec.cpp). Tuples, pages and log records are written and read
-- by the byte codec (include/minidb/byte_codec.hpp). Pages live in frames of the buffer pool, which asks the LRU-K
-- replacer (src/lru_k_replacer.cpp) for a frame to reuse. Sessions run their statements under a lease
-- of the access gate (src/database_access_gate.cpp): many readers or one writer. A result, or an error
-- with its place in the source, goes to the client in a frame (src/wire_protocol.cpp).
--
-- Files:
--   Prelude      names, lists, results, methods that throw, bits, integers and texts shared by all.
--   Bytes        include/minidb/byte_codec.hpp: requireRange, writeUint16, 32 and 64, readUint16, 32 and
--                64, appendUint16, 32 and 64. The three widths share one scheme each. Bytes/Decode and
--                Bytes/Frame say what is read and kept, Bytes/RoundTrip and Bytes/Append relate both.
--   Replacer     LRUKReplacer: the constructor, recordAccess, setEvictable, victim, evict, remove. A
--                call that throws leaves the state that it has at the throw. Replacer/Invariant is the
--                consistency of entries, candidates and count; Replacer/Access, Evictable, Evict and
--                Policy are its operations; Replacer/Reach is any sequence of calls.
--   Gate         DatabaseAccessGate: acquire in its critical sections (up to the wait, one round, and
--                the handler), release, shutdown, resetStats. Gate/System runs the threads as a list of
--                events: a request, a wake-up, a release, a shutdown, a reset. Clock readings and the
--                cancellation probe are arguments of the events. Gate/Exclusion is the consistency of
--                the counters, Gate/Stopped what follows a shutdown, Gate/Progress who is let in.
--   Schema       src/schema.cpp: normalizeIdentifier, Schema::create, column, findColumn,
--                primaryKeyColumn, validateValues. A schema is the list of its columns, a string the
--                list of its bytes. Schema/Names, Columns, Lookup and Values are the theorems.
--                Schema/Encoding is encodeSchema and decodeSchema; Schema/WrittenColumns,
--                EncodedColumns, EncodedHeader and EncodedSchema are what they write and read.
--   Tuple        src/tuple_codec.cpp: TupleCodec::encode and decode over a schema. Prelude/Masks and
--                Bytes/Segments say what bits and what integers are read back; Tuple/Bitmap is the null
--                bitmap, Tuple/Pieces and Tuple/Encoded the bytes that encode returns, Tuple/Decoded,
--                Checks and RoundTrip what decode reads in them.
--   Sql          Sql/Source and Sql/Token are include/minidb/sql_source.hpp and sql_token.hpp, Sql/Lexer
--                is class Lexer, Sql/Truth and Sql/Literal are src/sql_semantics.cpp. The message of an
--                error is a constructor. Sql/Lexer/Gaps describes blanks and comments without the
--                lexer, Sql/Lexer/Skips relates skipIgnored to them, Longest and Munch are the loops
--                that advance, Strings the value of a
--                string, and Scans and Spans the tokens. Sql/Ast is include/minidb/sql_ast.hpp and Sql/Parser is class
--                Parser: the cursor and literals, then Columns, Expressions and Statements.
--   Sql/Outcome  the results of a statement: include/minidb/sql_executor.hpp and record_id.hpp.
--   Wire         src/wire_protocol.cpp: Writer and Reader; Wire/Frames is the frame and its header, the
--                requests and their decoding; Wire/Commands is the payload of a command's result,
--                Wire/Rows that of a query's, and Wire/Results the frame of either; Wire/Errors is the
--                error response. A writer and a reader are methods that throw. Wire/Sends says when a
--                reader reads what a writer writes, and Wire/Fits when a writer returns; Wire/Numbers,
--                FrameTrip, ResultTrip, RowTrip, ErrorTrip and Payloads apply both to each part, and
--                Wire/Delivery to whole messages.
--
-- Bounds and fuel. Machine integers are natural numbers with the wrap-around written out; frame ids,
-- timestamps and counters keep their limits. The loops of the lexer that advance have as fuel the bytes
-- that are left, and the loop over the tokens has one round more than there are bytes: each round takes
-- at least one byte. The loops of the parser have one round more than there are tokens left, since each
-- takes one; the nesting of expressions is a recursion on the levels that are left of 128, with no other
-- fuel.
--
-- Not modelled: files, sockets, threads beyond the gate's critical sections, the text of messages, a
-- failing allocation (also that of a vector beyond its maximal size), and the parts that rest on files:
-- the pager and the pool, the log, recovery and checkpoints, the persistent tree, tables, the catalog
-- and the executor. Slotted pages, the transaction manager and the in-memory tree are not modelled.
-- Clocks, mutexes and condition variables are the order of the events.
pub mod Prelude
pub mod Bytes
pub mod Replacer
pub mod Gate
pub mod Schema
pub mod Sql
pub mod Tuple
pub mod Wire
