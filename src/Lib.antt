-- ===== src/Lib.antt =====
-- Verification library of the EE459 vehicle monitor (firmware of an ATmega1284 that reads OBD-II data
-- through an ELM327, shows it on an LCD and can log it to a FAT32 SD card).
--
-- How the parts interact. The receive interrupt of src/main.c writes each byte of the second UART into
-- the fifo (src/fifo.c); the ELM327 reader (src/elm.c) takes them out, and src/obd.c turns an answer
-- into numbers. On the other side src/io.c presents the SD card (src/sd.c over src/spi.c) as a flat
-- array of bytes through one sector buffer for reading and one for writing, and src/fat.c reads and
-- writes the FAT32 structures through it. At its start src/main.c initialises
-- all of these in turn and asks the car what it supports; its loop then asks for the supported readings one by
-- one and shows four of them on a display at the two-wire bus (src/i2c.c). The slaves of the SPI bus are
-- selected through pins of the chip (src/pins.c).
--
-- Files.
--   Base            numbers, words, lists and tests shared by all; no code of the program
--   Fifo            src/fifo.c: `struct fifo_t` is Fifo, each function has its own name
--     Latch         the abstract queue that the code implements
--     Inv, Refine   the invariant, and the refinement of the abstract queue
--     Stream, Drain `fifo_writen`, `fifo_readn`, and reads of a fifo that was full
--     Dump          `fifo_dump_mem`
--   Io              src/io.c: `struct io_ctx` is IoCtx, with the card behind it as a field
--     Sectors       what io.c relies on of `sd_get_sector` and `sd_put_sector`, as a record
--     Memory        the flat memory of bytes that a client sees
--     Read, Write, Buffer, Sync   reads, writes and flushes against that memory
--     Alias         the behaviour outside 32 MiB, and of the missing `return`
--     Reliable, Steady   reads and writes on a card that does not fail
--     Ram           a card that never fails, for the examples
--   Sd              src/sd.c: reading and writing sectors, over a bus whose card answers with a list of bytes
--     Steps         the loops that wait, send and read
--     Sector, Put   `sd_get_sector`, `sd_put_sector`
--     Start, Outcome  `initialize_sd`, and how it ends
--     Gives, Rounds, Begin   runs that use up their answers, and the start of a card that follows the protocol
--     Card, Stores  a card that follows the protocol, and sd.c before it as the device of Io
--     Flat          the flat memory of io.c over that device
--     Sample        the answers of a card to `initialize_sd`, for the examples
--   Spi             src/spi.c, the select lines over the pins; Select is about them
--   Pins            src/pins.c: the registers of the ports are the state
--     Tables, Mega  the tables of the three chips
--     Places, Drive, Setup   where a pin stands in the registers, driving it, the directions
--   I2c             src/i2c.c: the commands given to the hardware, over the list of what it reports
--     Write, Read   transactions that write, and that read
--   Linked          src/list.c, on an explicit heap
--     Chain, Alloc  what it means that a pointer is a list; a new node beside lists
--     Push, Walk    the two pushes; `list_dump` and `list_free`
--   Serial          the interrupt of src/main.c and the loop of src/elm.c over one fifo, in any order
--     Equivalence, Finish   what the reader sees of a schedule, and when it ends
--     Race          a byte that arrives while another is read
--   Main            src/main.c, the round of the display; Show is about one reading, Dial about that of the
--     engine's speed
--     Boot          what `main` does before its loop
--     SetUp         the registers after the set-up of the chip, and bytes that go through its fifo
--     Stages, Ready a start that goes well
--   Timer, Stdio    src/time.c, src/astdio.c
--   Utils           src/utils.c; Words is about `bind_args`, Dump has `dump_bin`
--   Uart            src/uart.c, its output and input of text
--     Hex, Strn     about `uart_write_32`; about `uart_write_strn` and `uart_read_strn`
--     Ports         the register table and `initialize_uart`
--   Elm             src/elm.c: the bytes that arrive are a list, a wait that does not end is `none`
--     Read, Start   what a read makes of the bytes that arrive; `initialize_elm`
--   Obd             src/obd.c: the exchange of a command and its answer
--     Commands, Pids  the table `obd_cmds`, and the enumeration of obd.h
--     Readings      the functions `obd_get_...`
--     Format        `obd_fmt_resp`
--     Decode, Line, Start   what `obd_command` stores of an answer, and of one line; `initialize_obd`
--     Supported     `obd_set_supported_ops` and the rows of the table
--     OnHeap        `obd_set_supported_ops` with the linked list on its heap
--   Fat             src/fat.c: `struct fat32_ctx` is FatCtx, `struct fat32_file` is File
--     Layout        the packed structs as bytes
--     Entries       the bytes of a directory entry
--     Chain, Follow the file allocation table, opening files, the cached root directory
--     Listing, Scan, Mount   what a root directory lists, its scan, and the start of the file system
--     Alloc, Free   the searches for a free cluster and a free entry
--     Files, Create creating a file and writing to it
--     Settled, Write  what a write to a file makes of the memory
--     Logged, Log   a file that is created and then written to any number of times
--     Table         entering a cluster in the table, and functions that do nothing
--     Sample        a small card, for the examples
--     Dump          the printing of directory entries and files
--
-- Conventions. Numbers are natural numbers with the wrap-around of their C type written out; a signed
-- result of type `char` or `int8_t` is its bit pattern, -1 being 255. A function that writes through a
-- pointer returns the new value. The firmware is built with -funsigned-char (CMakeLists.txt), the host
-- tests are not: where `char` is compared with 0, its signedness is an argument.
--
-- Loops without a bound of their own take fuel and return `none` without enough of it: the searches of
-- src/fat.c get one more than the numbers that can be taken, which is enough; the chain of clusters gets
-- the caller's fuel, and one round for each cluster is enough; the loops over strings get the length.
-- The loops over a linked list get a round for each node.
--
-- A hardware register that is waited for answers in the order of a list, and `none` or `waiting` stands
-- for a wait that goes on where the list ends. Allocations of src/list.c succeed. The chip of src/spi.c is
-- the ATmega1284 of src/include/debug.h. In Serial the interrupt comes between two rounds of the reader's
-- loop; Race puts it into the middle of `fifo_read_byte`;
-- at the start of Main each byte is read before the next arrives.
--
-- Not modelled: delays and debug output, with the prints of the codes that the initialisations return in
-- `main`; `sei` and `initialize_stdio`; the clients of src/list.c in src/fat.c over the heap (they have
-- lists of the model; obd.c has both). While `initialize_sd` runs the card is a list of answers, and
-- afterwards the card behind src/io.c; Sd/Stores has a card for both of the sector functions, not for the
-- start. Host tests (test), tools and resources are not part of the firmware; src/lcd.c and src/msg.c are
-- empty.
pub mod Base
pub mod Fifo
pub mod Io
pub mod Elm
pub mod Obd
pub mod Fat
pub mod Sd
pub mod Utils
pub mod Uart
pub mod Pins
pub mod Spi
pub mod I2c
pub mod Linked
pub mod Serial
pub mod Timer
pub mod Stdio
pub mod Main
