-- ===== src/Lib.antt =====
-- yacdb, a small database server in C: what its records, its parser, its node cache, its file of pages,
-- its tables, its selections and its server do. Paths are from the repository's root.
--
-- A query arrives as text: server-side/server.c gives each client a thread, and lets one thread at a
-- time into db_handle (server-side/core/core.c). server-side/parser/parser.c makes the text a list of
-- instructions, and db_handle calls the operations on tables for each and prints the answer. The
-- operations on tables store rows, which server-side/schema/record.c writes as one buffer, in the
-- nodes of trees, and server-side/diskio/diskio.c keeps those nodes in pages of a file, behind a
-- cache, and gives pages out and takes them back. The modules:
--
--   Common    lists, bytes, signed numbers, C strings, and what a C routine returns: a value, its own
--             error, or undefined behaviour (`fault`: an access outside a buffer or through NULL).
--   Record    record.h and record.c. Build and Get are the constructors and getters, Compress is
--             compress_records, extract_record and replace_record, Compare is compare_r.
--   Parser    parser.c, parser.h and instruction.h. Lex reads one token, Lists the lists of columns,
--             definitions and values, with count_comma_list; Instructions the instructions and
--             parse_user_input. Format says how a user writes them (client-side/query_format.md).
--   Disk      diskio.c, diskio.h and db_structs.h. Disk has the types, Cache the list of cached nodes
--             (add_to_cache, get_from_cache), Pages the file, its header and the chain of free pages
--             (read_page, write_page, create_addr, free_page, free_linked_overflow_pages, init_db),
--             Image the bytes of nodes in their pages (write_ti_node, read_node; Image/Write has
--             write_tl_node and write_overflow). Store is read_node, write_node and create_addr on the
--             file and the cache together, and the interface that the trees use of them.
--   Table     server-side/schema/cursor.c: Table has the cursor and the search, with get_row of
--             db_ops.c, Insert the insertion; Rows is db_ops.c: records of rows, the table of the
--             tables, new rows. Shape is a B+-tree as its nodes make it up, the order of its keys and
--             its rows as an association list.
--   Index     server-side/schema/cursor_bt.c: the search in the indexes (find_bt, find_bt_leaf,
--             cursor_next_bt, find_all, find_offset), Insert the insertion (insert_bt); and of
--             db_ops.c Names get_table_id, Columns new rows and tables, Offsets the columns of a
--             table, and Init the first tables.
--   Query     server-side/schema/db_ops.c: select_all, select_where and select_row_columns; Print is
--             print_header, print_row and print_footer. Leaves and Scan follow the leaves of a table. Core is
--             server-side/core/core.c: db_handle and its switch, and the dump of the instructions
--             (server-side/parser/parser_dump.c).
--   Server    server-side/server.c: main and process_communication, cut into the steps between which
--             other threads can run, as functions of an event; Steps are the servers that they lead
--             to. db_handle is a parameter, which Query/Core gives for the database on the file.
--   Tree      table_tree/nodes.c: an earlier B+-tree in memory, as a value: yabsearch, yabinsert with
--             splitChild, yabdelete and yabgetall. Order says when a tree is in order, Index what the
--             halving loops find.
--   Tests     runs and instances at concrete inputs.
--
-- A definition has the name of the C function, with the state it changes passed in and out. The text
-- pointer `char **data` of the parser is the rest of the text, and a list of bytes ends where the
-- terminator stands. A buffer is the list of its bytes, so a size kept beside it is its length.
-- Integers are the natural numbers of their bit patterns, with the wrap-around written out. The
-- machine has 8-byte size_t, pointers and long, 4-byte int and float, signed char, and stores the
-- lowest byte first. Errors of a routine on the state keep the state (Common/State), since callers may
-- go on. Loops are recursions on a list or on the number of rounds, so most need no fuel. Where there
-- is some: the digits of a printed number, of which 20 are enough for any C integer; the nested calls
-- of get_overflow_data and write_overflow, as many as the stack holds; and the levels of a tree that a
-- search or an insertion goes down or up, which the height of the tree bounds (Table/Find), and for an
-- index also the entries that find_all walks over. In Query the fuel is also the rows that select_all
-- prints, and in Tree the levels that yabinsert goes down; the theorems say how much is enough.
--
-- In Server what a call of the operating system returns is part of an event, so a step can be one that
-- no run of the machine makes, but no step of the machine is left out: descriptors are numbers, which
-- one thread can close under another, and what comes out of a pipe is any text. fclose waits for ever
-- when the answer does not fit the pipe. A step is what a thread does between two points at which
-- others can change what it sees: db_handle reads the database at its start and leaves it changed at
-- its end, so that two threads inside at once would lose what one of them wrote. A line of 100 bytes
-- without a zero, past which strlen reads, ends the process in the model.
--
-- Parameters: the text that the C library prints for a float, what it makes of a sprintf into its own
-- source, how many bytes a pipe holds, and the indeterminate bytes of a buffer that malloc returns. Of
-- strcmp only the sign is documented, and only the sign is asked for: compare_r stands for it with
-- that sign, and compare_with is the same code with any strcmp. Allocation of a size that a machine
-- can grant succeeds, and so do seeks, reads and writes of the file where they lie in it. A node that
-- is read is a copy, as the cache makes it; the trees take the store of nodes as a record of
-- operations and laws, which Disk/Store/Instance gives.
--
-- Not modelled: exit_db; the trees of index_tree and their use by instructions (table_tree), which the
-- server does not link; the client, terminal input, debugging output and the release of memory, but
-- for a list of columns that was not filled and for the strings of print_row and select_where; in the
-- server, signals other than the interrupt and that of a broken pipe, and a client that closes its
-- socket while it is answered. Insertions are modelled with their splits; what is shown of them on the
-- file is for the tree of a table, for a leaf with room; the store holds a leaf only with zeros behind
-- its first child, which malloc does not give for the leaf that a split makes, so of splits only what
-- they hand to the store is shown, and Table/FirstSplit is about a store that holds such leaves.
-- select_where is modelled, and run in Tests, without a theorem of its own.
pub mod Common
pub mod Record
pub mod Parser
pub mod Table
pub mod Index
pub mod Server
pub mod Query
pub mod Tree
mod Tests
pub mod Disk
