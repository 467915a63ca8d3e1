-- ===== src/Lib.antt =====
-- Octo is a SQL engine over the YottaDB database, and ROcto is its server: it speaks the PostgreSQL
-- wire protocol with clients. This development models the server's protocol layer, in src/rocto,
-- and of the engine the types of expressions, the columns that names stand for, the normal form of
-- a WHERE clause, the order of CROSS JOINs, the patterns of LIKE, the reading of date and time
-- literals, and some of what all of these rest on: generated names, escaped texts, memory and
-- lists. A path below that starts with src is from the repository's root, and any other is relative
-- to src/rocto, or names a file of this development.
--
-- The parts, and how they interact. A client's bytes come in through `read_bytes` and are cut into
-- messages by `read_message` (Rocto/Socket). Each message is a `BaseMessage` (Rocto/Message): its
-- type and the bytes behind its length field. The loop of rocto_main_loop.c (Rocto/Session) gives
-- it by its type to one of the readers read_*.c, and what the reader makes of it to a handler:
-- Rocto/Read has the readers of Query, PasswordMessage, Parse, Describe, Close, Execute, Sync and
-- Flush, Rocto/Bind that of Bind, and Rocto/Startup those of the messages that open a connection,
-- which have no type. The handlers are an interface, the record `Handlers`; of the functions behind
-- a connection's start, Rocto/Password has the check of the client's password, and of those behind
-- Bind, Rocto/Parameters has the text of a binary parameter. The answers are built by make_*.c
-- (Rocto/Make, and Rocto/Rows for rows and their descriptions) and go out through `send_message`
-- and `send_bytes` (Rocto/Socket). Each definition has the name of the function or the structure
-- that it models, or names the part of a function that it stands for.
--
-- Of the engine, Optimizer has the step that the optimiser takes with every WHERE clause,
-- src/optimization_transforms/lp_make_normal_disjunctive_form.c: `lp_apply_not` pushes negations to
-- the comparisons, and `distribute` is the double loop that makes a conjunction of disjunctions a
-- disjunction of conjunctions. Its specification is `eval` of Optimizer/Meaning, SQL's three-valued
-- meaning of a clause, in which a name stands for a value, a list, a row or a condition, and
-- `is_normal` of Optimizer/Shapes, the normal form itself. Dates has
-- src/aux/ydboctodateoperations.c: the macros that test a field of a literal, as functions that
-- give what is behind the field; Dates/Literals the loop over a format that calls them; and
-- Dates/Microseconds the internal format of a time. Types has the enumerations of src/octo_types.h
-- and their conversions; Types/Ambiguous the macros of src/octo_type_check.h, with the array of
-- parameter types that grows in front of a write; Types/Same src/ensure_same_type.c, whose
-- specification is the least upper bound in an order of implicit conversions; Types/Operations
-- src/unary_operation_data_type_check.c and src/binary_operation_data_type_check.c; and
-- Types/Columns src/check_column_lists_for_type_match.c, which has a copy of these rules for lists
-- of columns. A check gives `passed`, with what it leaves in the types of its operands, or
-- `failed`, with the first of its errors. Since types are finitely many, a test is evaluated on all
-- of them (Types/Finite).
--
-- Names has src/qualify_column_name.c and src/match_column_in_table.c, which find the column that a
-- name stands for: `find_by_table` and `find_by_column` are the two ways through the loop over the
-- tables, and `find_in_clause` is what GROUP BY and ORDER BY add. A query is a number, counted from
-- the innermost one outwards, in place of a pointer to its table. The specification is the list of
-- all columns with the name (Names/Closest). Optimizer/Joins has
-- src/optimization_transforms/lp_optimize_cross_join.c: `leading` and `gather` move the CROSS JOINs
-- to the front, `sort_loop` orders their tables by the conditions that tie them, and `place` swaps
-- them into that order. A list of joins is the linked list; its nodes keep their types while their
-- tables move. Text/Patterns has src/regex_has_no_special_characters.c, the test by which LIKE and
-- SIMILAR TO become an equality, with `is_like` for the meaning of LIKE; Text/Like joins it with
-- src/parser/regex_specification.c and the check of an operation. Text/Generated has the names of
-- src/generate_name_type.c with the digits of src/ydb_hash_to_string.c, Text/Escaping the growing
-- buffer of src/m_escape_string2.c, and Memory the blocks and chunks of src/memory_chunk.c, with
-- the circular lists of src/double_list.h over functions for the pointers of all nodes
-- (Memory/Lists).
--
-- These parts stand on their own: the server reaches them through the compiler's walks over a
-- statement, which are not modelled.
--
-- How C is modelled. A byte is a number below 256 and a block of memory is a list of bytes
-- (Rocto/Bytes); integers in network byte order are read and written byte by byte. A reader gives
-- `ok`, one of its errors, or `stray`: the outcome of a read or write outside of the allocated
-- block, or of a cursor that moves backwards, from where on C's behaviour is not modelled: of Bind
-- messages those with a parameter of negative length, which NULL is, are left out. That a reader is
-- never `stray` is therefore a statement of memory safety. A `short` or `int` that comes
-- from the wire is a bit pattern, and the tests for its sign are tests against 2^15 and 2^31. An
-- outgoing message is its type, the value of its length field and the bytes that are written, since
-- C computes the length in one pass and writes the bytes in another: `IsFramed` says that the two
-- agree. The calls of `recv` and `send` answer with a list of events, consumed in order, and a list
-- that ends before the call is satisfied means that the call does not return. The session loop
-- likewise takes a list of rounds. The host is taken to be little-endian with a `long` of eight
-- bytes.
--
-- Fuel. The two passes over the parameters of a StartupMessage take one unit of fuel for each
-- parameter, and get one more than the body has bytes; each parameter takes at least two bytes, so
-- that the fuel is enough, and running out of it would be `stray`, which is excluded. The normal
-- form of a clause takes the clause's size as fuel, and is shown to be found with it. The order of
-- joins takes one unit for each table and one more, and is shown to be found with that. The digits
-- of a hash take as much fuel as there are bytes in the buffer, of which each round fills two.
--
-- Parameters of the model: `strtol`, `tolower`, the "%d" of `snprintf`, the bytes of `getrandom`,
-- the MD5 digest, the "%lld" of `snprintf`, YDB_MAX_IDENT, and what the database holds of a
-- statement's parameters and of a user; `malloc`, whose blocks have the size asked for, and whether
-- a changed literal could be stored in the database.
--
-- Integers that the C code adds up are tested against their types where they could overflow: the
-- lengths of a StartupMessage, of a DataRow and of an escaped text, the number of bytes to send,
-- and the internal format of a time; a theorem about one of them has the bound that it needs among
-- its conditions.
--
-- Not modelled: the logging of errors and their texts, allocation failures other than that of a
-- message's buffer, the TLS library's own sends, the handlers but for the password check and the
-- conversion of a parameter, the rest of the SQL compiler (lexer, parser, the walks that qualify a
-- statement and those that make a plan of it, the M templates), the notes that
-- src/optimization_transforms/lp_optimize_where_multi_equals_ands.c takes of a WHERE clause, which
-- are given as pairs of table ids, the comparison of the rows of two tables, whose outcome is data
-- of the check of an operation, the sharing of subplans between the conjunctions of a normal form,
-- the conversions of dates through the C library, the freeing of memory chunks, src/quoting.c,
-- which nothing calls, and the command line.
pub mod Prelude
pub mod Rocto
pub mod Optimizer
pub mod Dates
pub mod Types
pub mod Text
pub mod Memory
pub mod Names
mod Tests
