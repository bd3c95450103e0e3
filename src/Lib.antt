-- ===== src/Lib.antt =====
-- nvIPFIX reads flow records of a switch and exports them to IPFIX collectors. This library models its
-- core and proves what is listed at the end.
--
-- The parts, and how they use one another:
-- Text (src/types.c): string lists, the split at delimiters, trimming. Fields says what the pieces of a
-- text are; Tokens and Split treat the list and the loop, Join the split of a joined text, Lines the split of
-- a text line, Trim the trims.
-- Number (src/types.c): the integer parsers, over strtoull, strtoll and atoi of the C library, which are
-- written out. Decimal has the decimal texts, Parse the parsers on them.
-- Address (src/types.c): IPv4 and MAC addresses, on top of the split and of strtoul.
-- Hashtable (src/types.c): an array of search trees. Keys and Nodes treat the order and the trees, Laws the
-- table as a map, Hash the hash of a key, Shape the array, Blocks its memory and Lifecycle a table from its first key on.
-- Time (src/types.c, src/include/types.h): time spans in microseconds.
-- Date (src/types.c): the parser of ISO 8601 dates. Memory has what it allocates, RoundTrip
-- what it reads.
-- Config (src/config.c): Table has the settings and their parsers, Reader the reading of the file,
-- Collectors what it keeps true of the collectors, File how the file is cut into lines, and Access the
-- accessors. Lines and Reading treat a file of plain lines, Printed, Blocks, Values, Keys and Stored what the
-- lines of settings and blocks store, Peers and RoundTrip a whole file.
-- Data (src/data.c, src/include/data.h): flow records and their linked list; Chain is its invariant.
-- Export (src/export.c): the conversion of a record; Session the function nvipfix_export, Frames,
-- Outcome and Opening what it leaves behind. It takes the collectors of Config and the records of Data.
-- Import (src/import.c): the fields of a record and their parsers; Buffer reads the file into a block and
-- Buffer/Loop, Kept and Short say what the block holds, Reader takes the text apart, Fields, Result, Parts and
-- Memory follow its memory, Fold, Listing and Records the records that it gives. Import/Nvc is the import from
-- a switch, with the types of src/include/nvc.h, Nvc/Content the records that it gives, Nvc/Protocol the order
-- of its calls.
-- Calendar (src/types.c): datetimes from and to the time of the C library.
-- Main (src/main.c): the export to all collectors, and the cleanup at exit of src/export.c; Rounds says what
-- it uses, Sessions and Closing follow the memory of the sessions until the program ends, OneShot the export
-- of a file from its bytes to the collectors, SwitchExport and SwitchContent the memory and the records of an
-- export from the switch, Once a run of one export until the program ends.
-- Daemon (src/nvipfix.c): the name of the shared memory and the loop of the daemon; Escape and Windows treat
-- these two, Kept what the loop keeps true, and Exports the loop together with the exports that it makes.
-- Arguments (src/nvipfix.c): the command line; Outcome says what it leads to.
-- Log (src/log.c): the logging functions; Delivery says what becomes of the messages, Setup when the log is set
-- up. Args (src/args.c) is the argument table and Fwatch (src/fwatch.c) the file watcher; the program calls
-- neither.
-- The command line leads to the daemon or to one export; the daemon exports in rounds; an export imports the
-- records of a switch, or of a file, and hands them to the exporter of each collector.
-- Heap is the memory that all of them allocate; Common has shared names and lemmas, Tests the runs.
--
-- State and operations: a function of the source has its name without the prefix nvipfix_. A struct is
-- a record, an enum a data type. A pointer that may be NULL is an Option. A function that allocates
-- goes from a heap to its result and a heap: the heap holds the answers that malloc is going to give
-- and counts the live blocks, so a theorem for all heaps covers every pattern of failures. A target
-- that a parser fills is passed in and returned. Static variables of the configuration are the record
-- Globals, those of the reader Reader, and what is logged as an error is a list of reports.
--
-- Bounds: numbers of w bits are reduced modulo 2 ^ w where the source converts. The product of a time
-- span is reduced to an int of 32 bits, where C leaves the overflow undefined. Texts hold bytes from 1
-- to 127, keys any bytes, fewer than 2 ^ 31 of them, and an export has fewer than 2 ^ 31 records. The
-- line loop runs on fuel, for which the length of the file is enough, since every round reads at least
-- one byte; the loop that frees records runs on fuel too, for which their number is enough. The loop
-- that reads a data file has one round more than the file has bytes, since each round but the last
-- reads 65536 of them. The loop that escapes a name has one more than the name has bytes, since each
-- round takes a '/' away. The loop of the daemon has no bound: it is modelled for every number of
-- rounds, and returns nothing where it still runs behind them.
--
-- Parameters: Log4c is the calls of log4c and of the file system that the log makes, and the texts
-- that vsnprintf makes of formats; of its priorities it assumes their order. libfixbuf is the record
-- Fixbuf of the calls that the source makes, over any type of states; mktime is a function from
-- broken-down times to integers, and the clock of Calendar has localtime and gmtime too. Os is the
-- calls of the operating system, Nvc those of the switch's library, each over any type of states. The
-- bytes of a data file and the content of fresh memory are arguments; an import that reads past the
-- end of its block, as none of its bytes is NUL, has no result. In Daemon.Exports the system makes the
-- exports of Main; behind a use of a freed block it leaves the process as it is. The theorems on the
-- windows and on the memory of the daemon assume that mktime inverts localtime, and those on the
-- records of a data file that fresh memory has a NUL behind the file; no other assumes anything of
-- these. Collectors share the state of libfixbuf, with calls of their own for each of them.
--
-- Not modelled: what is printed, and the calls of the log in the other parts, whose messages have no
-- effect on them; the log in the Unicode build, and two threads that log at once, which its critical
-- sections keep apart; the declarations of the switch's library (src/include/nvc.h) but for the types
-- that are read; and the test program (src/_test.c).
pub mod Common
pub mod Heap
pub mod Text
pub mod Number
pub mod Address
pub mod Hashtable
pub mod Time
pub mod Date
pub mod Config
pub mod Data
pub mod Export
pub mod Import
pub mod Log
pub mod Calendar
pub mod Daemon
pub mod Main
pub mod Arguments
pub mod Args
pub mod Fwatch
pub mod Tests
