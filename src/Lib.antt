-- ===== src/Lib.antt =====
-- idos-nx, an operating system for 32-bit x86 that runs its own and DOS programs: a model of the parts
-- of its kernel that keep the books on memory, handles, pipes and time, of its TCP connections, of
-- the allocation table and the sector cache of its FAT driver, and of its command interpreter.
--
-- How the parts hang together. The boot loader passes the memory map of the BIOS to the kernel, which
-- builds from it a bitmap of free page frames (Memory.Bitmap, Memory.BiosMap). Frames that several
-- tasks map are counted in a radix tree (Memory.Tracking). The kernel's own objects come from a heap with
-- a list of free nodes in it (Memory.Heap). Each task has a map of its address space,
-- which page faults consult, to which `map_memory` adds regions and from which `unmap_memory` cuts
-- ranges (Task.Mapping). A task names its open objects by handles, indexes into a slot list
-- (Collections.SlotList), and gets the result of an operation on one as a word (Io.Error); the bytes
-- of a pipe go through a ring buffer (Collections.RingBuffer, Collections.Pipe). Packets carry a
-- checksum (Net.Checksum), and a TCP connection turns them into the stream that reads and writes see
-- (Net.Tcp). Files on a floppy disk are chains of clusters in an allocation table (Fat.Table);
-- an absolute path names the driver of its drive (Files.Open), and paths are joined from their parts
-- (Files.Path). The terminal of a
-- console turns its output into a cursor and calls of its text buffer (Console.Term, Console.Text).
-- The command interpreter reads a line into tokens and these into a command (Command.Lexer,
-- Command.Parser), runs the lines of a batch file (Command.Batch),
-- and keeps a current directory (Command.Environment).
-- File times are timestamps of the system's own epoch, taken apart into dates
-- and put together again (Time.Date).
--
-- Which file models what; every path is under kernel/src unless it says otherwise.
--   Base                helpers: tests on numbers, lists, results, 32-bit words, bits of a byte
--   Memory/Address      memory/address.rs: page arithmetic on physical and virtual addresses
--   Memory/Range        memory/physical/range.rs: `FrameRange`
--   Memory/Bitmap       memory/physical/bitmap.rs: `FrameBitmap`; its laws frame by frame
--                       (Bitmap/Frames, Bitmap/Ranges), the search (Bitmap/Search) and the count
--                       (Bitmap/Count)
--   Memory/BiosMap      memory/physical/bios.rs, and `initialize_from_memory_map` of bitmap.rs; the frames
--                       of the entries (BiosMap/Entries) and those it frees (BiosMap/Released)
--   Memory/Tracking     memory/physical/tracking.rs: `AddressTree`; the nodes (Tracking/Nodes), their
--                       shape (Tracking/Shape, Tracking/Descent), the abstract map (Tracking/Refine)
--   Memory/Heap         memory/heap/list_allocator.rs: the nodes and `alloc`; an allocation among the
--                       free blocks (Heap/Blocks, Heap/Fits), the words that it writes (Heap/Split), the
--                       list in memory (Heap/InMemory, Heap/Alloc) and what the caller gets (Heap/Serve); `dealloc`
--                       (Heap/Release), on the blocks (Heap/Merge), in memory (Heap/Freed) and as a
--                       whole (Heap/Dealloc); growth and memory/heap/mod.rs (Heap/Grow)
--   Task/Mapping        task/memory.rs: `MappedMemory` and `unmap_memory`, and the file offset that
--                       task/paging.rs computes from a region (Mapping/Tail);
--                       `map_memory` with its searches for free space (Mapping/Space, on maps
--                       whose regions share no page: Mapping/Paged, Nearest, Placed, Request)
--   Collections         collections/ringbuffer.rs, collections/slotlist.rs, collections/refcount.rs,
--                       the handle table of io/handle.rs and pipes/pipe.rs
--   Io/Error            the error codes of api/src/io/error.rs (from the repository's root) and the
--                       encoding of a result in one word, io/provider/mod.rs and io/handle.rs
--   Net/Checksum        net/protocol/checksum.rs
--   Net/Tcp             net/protocol/tcp/connection.rs and header.rs: the types; the packets and calls
--                       (Tcp/Operations), the callbacks (Tcp/Callbacks), the packets of a write
--                       (Tcp/Chunks), and the stream of arbitrary runs (Tcp/Stream, Tcp/Overtaken)
--   Files/Path          files/path.rs; a path as a stack of names (Path/Names)
--   Files/Open          io/mod.rs: `prepare_file_path`, with the names of io/filesystem/mod.rs; the names
--                       between separators (Open/Trimmed) and what they open (Open/Named)
--   Console/Text        console/console/textmode.rs: colors and the ring of rows; what it shows
--                       (Text/Page)
--   Console/Term        console/console/term.rs: the cursor and the escape sequences; what any output
--                       does (Term/Bounds)
--   Command/Lexer, Command/Parser
--                       components/programs/command/src/lexer.rs and parser.rs (from the repository's
--                       root); how words are read (Lexer/Words), tokens parsed (Parser/Tokens) and
--                       whole commands (Parser/RoundTrip)
--   Command/Batch       components/programs/command/src/batch.rs (from the repository's root); parameters
--                       (Batch/Expansion), runs (Batch/Lines) and jumps (Batch/Jumps)
--   Command/Environment components/programs/command/src/env.rs, and `cd` and `is_drive` of exec.rs (from
--                       the repository's root); the buffer (Environment/Buffer) as a stack of names
--                       (Environment/Directories), where `cd` leads (Environment/Moves), full paths of
--                       files (Environment/Names) and prompts (Environment/Prompt), with the codes
--                       that the source documents (Prompt/Codes) in a buffer (Prompt/Filled)
--   Fat/Table           components/drivers/fatdriver/src/table.rs and bpb.rs (from the repository's
--                       root); the entries as a map (Table/Entries), allocation (Table/Allocate)
--   Fat/Cache           components/drivers/fatdriver/src/disk.rs (from the repository's root): the hash
--                       table of the sector cache; a free cell (Cache/Free), the search (Cache/Probing),
--                       where a slot goes (Cache/Place) and the table with it (Cache/Insert)
--   Fat/Geometry        components/drivers/floppy/src/geometry.rs (from the repository's root)
--   Time/Date           time/date.rs; the calendar it is compared with (Date/Calendar) and the round
--                       trip (Date/RoundTrip)
--
-- Conventions. A number of the source is a natural number below its bound, and arithmetic that can
-- leave the bound is reduced modulo 2 ^ 32 as the release build does it (Base/Words). An operation
-- that changes a structure returns its result and the changed structure. `Result` is the source's,
-- and `Outcome` tells a panic from a result (Base/Results). A `BTreeMap` is a list sorted by key.
--
-- Loops are recursion on the number of rounds that are left (`search_from`, `update_frames`,
-- `count_bits`, `find_month`), on the list they walk (`keys_to_modify`, `release_entries`), or on fuel:
-- `count_from` gets one more than the number of frames, and every round moves the frame on;
-- `count_bits` gets nine, and the mask of eight bits is shifted out after eight; the descents of the
-- radix tree are as deep as the tree. `send_chunks` gets the number of bytes, and every packet takes at
-- least one; `allocate_from` gets the 4083 clusters of its loop; the search of
-- `alloc` gets at least as many rounds as there are free blocks, the loops of `dealloc`
-- one more; the global allocator gets three tries (Heap/Grow/Reached);
-- the parser of a command line gets two rounds more than the command has arguments; the
-- loops of the hash table get its 256 cells, and the one that fills a gap (`rehash_from`), which has no
-- bound in the source, is given its rounds; `batch_lines` has no bound in the source, and gets one round for
-- each line that is run or searched; `free_chain` has no bound in the
-- source, and gets as many rounds as the chain has clusters.
--
-- Not modelled: what runs on the hardware (port access, page tables, interrupts, the boot loader), the
-- scheduler and the system calls, the other drivers and programs, and the commands of the command interpreter but `cd`; the pointers of the bitmap
-- (`move_to_highmem`) and of the pipe's buffer; the single atomic loads and stores inside one call of
-- the ring buffer, whose calls are one step each; the bytes of a TCP packet, whose model is the arguments of
-- `create_packet`, and the task and provider that an accepted connection gets, whose handle is a
-- parameter (`open_handle`); the palette and the graphics of a terminal; the cache of the FAT driver but for its
-- hash table, so that the disk of the allocation table is its bytes.
pub mod Base
pub mod Collections
pub mod Command
pub mod Console
pub mod Fat
pub mod Files
pub mod Io
pub mod Memory
pub mod Net
pub mod Task
pub mod Time
