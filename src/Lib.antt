-- ===== src/Lib.antt =====
-- The ztd library: a tree of data chunks with its text format, command line options, colors, sockets,
-- shell commands, a timer, and complex numbers.
--
-- The parts and how they interact. A `chunkdat` is a node of a tree: a string, a map from keys to
-- chunks, a list of chunks, or nothing yet. Its members add, join, merge and erase, `strval` prints
-- it, and `set` reads it from a text. A `filedat` holds a file's text and its chunk; to make the chunk
-- it removes the comments of the text and calls `set`. Errors of these are `format_error`. An
-- `option_set` holds the options of a command line, and `process` goes through the arguments,
-- activates options and returns the other arguments, or throws an `option_error`. `color` maps
-- numbers, enumerators and names to terminal codes. `socket_abstract` sends and reads on a descriptor,
-- and can read in a thread of its own; the TCP sockets open, accept and connect it. `shp` and `exec` run
-- a command and collect its output; `shc` does so in a thread, with three `wait_pool` to wait in.
--
-- Which file models which code:
--   Error           format_error of include/filedat.hpp, and what a call can end in
--   Chunk           chunkdat, chunk_string, chunk_map and chunk_list of include/filedat.hpp, as data
--   Chunk/Containers  what the code calls of std::map and std::vector
--   Chunk/Copy      set on a chunk, the deep copy, of src/filedat.cpp
--   Chunk/Memory    set on a chunk, operator=, clear and the destructors, on the objects in memory
--   Chunk/Access    listSize, getlist, getmap, subChunkPtr and subChunkRef of src/filedat.cpp
--   Chunk/Operators  the operators of chunkdat, and its inline members, of include/filedat.hpp
--   Chunk/Edit      addToMap, addToList, concatenate, merge and erase of src/filedat.cpp
--   Chunk/Views     what these promise: a chunk as a function of its keys, or a sequence
--   Chunk/Print     repeatString, escape and strval of src/filedat.cpp
--   Parse/Scan      the inner loops of _skip and _getstrval of src/filedat.cpp
--   Parse/Strval    _getstrval: a round of its loop, the loop, and the value it returns
--   Parse/KeyValue  _getkeyval
--   Parse/Set       chunkdat::set on a text: a value, the map loop, the list loop
--   Parse/Comments  filedat::removeComments
--   Filedat         the state of filedat, clear, import_string, generateChunk and strval
--   Filedat/Files   import_file, import_stdin, export_file and readTest, and std::getline
--   Filedat/Members data, set_data and operator[] of filedat
--   RoundTrip       what the printer and the reader make of each other: the words of the theorems
--   Display         printErrorIndex of src/filedat.cpp
--   Options         option, option_set, option_error of include/options.hpp and src/options.cpp
--   Options/Process option_set::process
--   Options/Help    print_help and argVector of src/options.cpp
--   Color           the tables, the three getColorCode, and color of src/color.cpp
--   Socket          socket_abstract of src/socket.cpp; Socket/Reader its thread, Socket/Tcp the others
--   Shell           sh, shr, shp and eclose of src/shell.cpp
--   Shell/Exec      exec and script
--   Shell/Pipe      eopen and the descriptors of its two processes, and popen2, pclose2 and kill_int
--   Shell/Shc       shc of src/shell.cpp, and wait_pool of src/wait.cpp where shc uses it
--   Wait            wait_pool of src/wait.cpp
--   Complex         complex of src/complex.cpp, over any operations of `double`, of which its theorem
--                   takes that addition and multiplication commute
--   Timer           timer of src/time.cpp
-- The files below these hold the proofs, named for what they are about, and `Examples` holds runs and
-- theorems at concrete input. Base holds what the parts share: names of the library, tests on numbers
-- (Base/Tests), lists (Base/Lists), the int of an offset (Base/Int) and texts (Base/Text).
--
-- How state and operations correspond. A byte is a natural number, a std::string a list of bytes. A
-- chunk is a value, and a member that changes it is a function to the chunk it leaves behind and the
-- exception it threw, if it did (`Edited`). Owned pointers are the values they own; the argument of a
-- member is another chunk than the object. In Chunk/Memory a chunk is its objects at their addresses
-- instead, with every read and delete, so that arguments may share objects; `new` gives an address
-- that was never given out. A map is an association list in which insertion looks for the place of
-- the key, as std::map does by the order of std::string. A reader that returns a value is
-- a function to `Result`: the value, an exception, undefined behaviour (`fault`, as a read behind the
-- end of a text), or used up fuel. A scanning loop takes the text from its index on, and an index
-- is the length of what was read. A pointer into `option_vec` is an index into it. What the system does
-- is an argument: the bytes that `read` gives, the files there are, what a process writes and how it
-- ends, the time. What is printed is a text. Where two threads meet, the steps of either are a relation
-- on a state that holds both of their places, and any order of them is a run, which ends where the
-- behaviour is undefined. A call of `exec` has the answers of `pipe`, `fork` and `waitpid` for arguments,
-- so that it can return, exit the program, wait for ever, or read descriptors without a value.
--
-- Bounds and fuel. The counters of brackets are 32 bit and wrap around. Texts are shorter than 2 ^ 31
-- bytes and hold no NUL, so that the other indices and offsets, int and uint32_t in the code, do not
-- wrap. The loop of `_getstrval` takes one unit of fuel for each round and starts with the length of
-- the text and one more; `set`, with all it calls, starts with twice the length and one more;
-- `process` takes one unit for each argument, and the loop over the lines of a file two more than the
-- file has bytes. Copies and deletions of chunks in memory take the number of chunks in the chunk.
-- Every scan consumes at least a byte per round, and a nested text lacks at least a bracket, so that
-- this is enough.
--
-- Not modelled: what a `double` is, and its rounding in src/complex.cpp; two reading threads of one
-- socket; wake-ups without a notification, and what a data race can do: a use of the queue of shc by
-- the program and the thread at a time ends a run, and races on its other members are taken as the
-- orders of their reads and writes; the rounding of seconds in src/time.cpp.
pub mod Base
pub mod Error
pub mod Chunk
pub mod Parse
pub mod Filedat
pub mod Options
pub mod Color
pub mod Socket
pub mod Wait
pub mod RoundTrip
pub mod Shell
pub mod Complex
pub mod Display
pub mod Timer
