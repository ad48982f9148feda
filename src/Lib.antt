-- ===== src/Lib.antt =====
-- Smart Fridge: a reader of product codes and a database of what is in the fridge.
--
-- The reader (src/sf_reader.c) takes codes from a camera, a socket or a test file into one queue;
-- its decoder thread downloads each product, decodes the answer and puts a message into a second
-- queue; its storer thread sends the messages to the daemon (src/sf_db.c), which decodes them and
-- inserts or removes the product in SQLite. Both read config.yaml.
--
-- Which file models what:
-- - Prelude: C strings, arrays and integers; strtol with its clamp, and the narrowing to int and to
--   unsigned int.
-- - Queue: src/tools/queue.c and include/queue.h (sf_queue_set, sf_queue_add, sf_queue_get).
--   Queue/Spec is the list that the table stands for, Queue/Holds the representation, Queue/Add and
--   Queue/Get the two operations on it, Queue/Refine and Queue/Keeps what a client sees.
-- - Json: what is used of cJSON, as the interface CJson; how a decoder ends (Outcome). Json/Laws is
--   the documented behaviour, and Json/Objects what it says of objects that are built item by item.
-- - Decoder: src/tools/product_decoder.c and include/product_decoder.h. Decoder/Raw is
--   sf_pr_raw_decoder and Decoder/Stored is sf_pr_decoder, cut into the pieces that follow each
--   other in the source. Raw/Answer, Raw/Found, Raw/Restored and Stored/Fields follow every field
--   through both.
-- - Config: src/tools/config.c and include/config.h. Config/Reader is sf_load_reader_config,
--   Config/Database sf_load_db_config, Config/Read sf_read_config; the files Document and File say
--   what the tokens of a configuration mean.
-- - Log: src/tools/log.c and include/log.h: the levels, the line and where it goes. Log/Lines has
--   whole sequences of calls.
-- - Messages: include/messages.h. Messages/Reader, Messages/Daemon and Messages/Tools are the calls
--   of the log functions in src/sf_reader.c, in src/sf_db.c and in src/tools, Messages/Conversions
--   is what a format reads, and Messages/Written what the calls leave in the log.
-- - Downloader: src/tools/downloader.c and include/downloader.h, given the session that libcurl
--   makes; Downloader/Collect is what is collected.
-- - Sql: database.sql and DB_QUERIES of include/sf_db.h; Sql/Engine is what is used of
--   SQLite.
-- - Db: src/sf_db.c. Db has db_insert, db_remove, insert_tags and insert_images, Db/Messages
--   msg_decoder and the loop over a connection, Db/Send database_send, Db/Start create_db, the
--   accept loop and main, and Db/Start/Program the program from its options to its clients.
--   Db/Stock specifies the daemon as a number of elements for each code.
-- - Reader: src/sf_reader.c and include/sf_reader.h. Reader has the handler of the mode and what a
--   line or a socket message comes to, Reader/Handler sf_bar_handler with the loops that put the
--   nodes into the queue, Reader/Codes the work of sf_decoder on one node and sf_send_product,
--   Reader/Threads the threads, for which what sf_decoder makes of a node is a relation, since the
--   time, the network and the memory differ from pass to pass (Nodes and Conserved are about the
--   nodes and the messages on their way, Accounts puts the two together, Ends and Race are about
--   the end of the threads), Reader/Start main up to the start of the threads, and Reader/Start/Run
--   the threads from there on.
-- - Heap: the memory of nodes, products and configurations. Heap/Product is free_product and
--   free_product_node of src/tools/product_decoder.c, Heap/Conf free_reader_conf and free_db_conf
--   of src/tools/config.c with the end of main of the reader, Heap/Pass the end of a pass of
--   sf_decoder, Heap/Node the life of a node; Heap/Fields are the fields of a structure, and
--   Heap/Freed what is left.
-- - Journey: the two programs together, from a scanned code to the tables.
-- - Samples: concrete instances of the interfaces, for the modules named Tests.
--
-- The state of a part is a record with the source's fields; an operation takes it and returns it
-- beside its return value. A pointer that may be NULL is an Option. A crash is a result of its own.
-- A local variable that is read before it is set is a parameter. Bytes are native numbers; an int
-- that is computed by strtol is narrowed as the machine does.
--
-- Loops are structural: over the slots of the queue with the rounds that are left as fuel, which is
-- the table's size as in the source; over the items of an array, the tokens of a file, the lines of
-- a file, the chunks of a connection, the calls of accept or of sendfile, which are lists. A file
-- that is read again and again is read as often as one looks. create_db has one round for each byte
-- of the schema, which is enough if each statement leaves the text shorter (Db/Start/Creation), and
-- free_product one for each slot of an array, which is enough if NULL ends it (Heap/Product).
--
-- Parameters stand for what is not in the repository: cJSON, SQLite, libyaml (a file is the list of
-- its tokens, ended by an error of the scanner or by `no_tokens`, behind which none comes for
-- ever), libcurl (a session is what it does in one download) and the system calls. SqliteLaw says
-- that a statement that is done had its effect and broke no constraint, that one that is refused
-- broke one, and that a statement that is not done has no effect; Works adds that no call fails for
-- want of resources.
--
-- Not modelled: how the decoders and libyaml allocate memory (the blocks of a product and of a
-- configuration are given), the texts of the help, the options that are set on the handle of
-- libcurl, the camera and zbar's own work, the programs of src/tests, and that SQLite turns a text
-- of digits in QUANTITY into a number. ELEMENTS is an unbounded integer, where a column of SQLite
-- has 64 bits and an overflow becomes a floating-point number.
pub mod Prelude
pub mod Queue
pub mod Json
pub mod Decoder
pub mod Config
pub mod Sql
pub mod Db
pub mod Reader
pub mod Log
pub mod Downloader
pub mod Heap
pub mod Messages
pub mod Journey
pub mod Samples
