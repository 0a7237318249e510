-- ===== src/Lib.antt =====
-- A reader of MATLAB files of version 7.3 (HDF5), in C: it maps the file, walks its tree of objects,
-- and copies the data of the variables asked for, decompressing chunks in threads.
--
-- The parts modelled, and the files that model them:
--   Common, Common/*    lists, tests on numbers, integers
--   Heap, Heap/Chain    the memory that queue nodes live in; chains of nodes
--   Ezq, Ezq/*          src/ezq.c, the queue of everything that the program keeps: objects, mapped
--                       pages, tokens, chunks. Ezq has the operations, on the fields that both kinds
--                       of queue share (`enqueue_ends`) and on a `Queue*` (`enqueue`); Ezq/Inv the
--                       invariant; Ezq/Spec the abstract queue; Ezq/Walk the traversals, removal and
--                       merging; Ezq/Walk/Search the searches of src/utils.c through a queue
--   Mtezq, Mtezq/*      src/mtezq.c, the queue with a lock that the threads share
--   NumberHelper, ...   src/numberHelper.c, numbers out of the bytes of the file
--   Varname, Varname/*  src/utils.c (removeSpaces, makeVarnameQueue, parseCoordinates), the names
--                       of the request; `makeVarnameQueue` puts its tokens in a queue of Ezq
--   ChunkedData, ...    src/placeChunkedData.c (findArrayPosition, makeChunkedUpdates) and
--                       src/utils.c (coordToInd), places in an array of several dimensions; and in
--                       ChunkedData/Copy what `doInflate_` copies of a chunk, as the list of its
--                       calls of `placeData`
--   ChunkTree, ...      src/placeChunkedData.c (fillNode), the walk over the tree of an object's
--                       chunks; ChunkTree/Written has the tree as it is written, ChunkTree/Noted
--                       what the walk leaves in Pages
--   PlaceData, ...      src/placeData.c (allocateSpace, placeData, placeDataWithIndexMap), the
--                       arrays of an object; PlaceData/Inflated runs the calls of
--                       ChunkedData/Copy on one
--   Pages, Pages/*      src/navigate.c (mt_navigateTo, mt_releasePages), freePageObject of
--                       src/cleanup.c: the threads of `doInflate_` on one page of the file, as a
--                       relation of moves; Pages/Start how they find the page, Pages/Super their
--                       moves on a file that is mapped whole; Pages/Safety and Pages/Finish what
--                       they can rely on
--   Superblock, ...     src/superblock.c, the search for the superblock, and the file's
--                       addresses and sizes
--   Message, Message/*  src/readMessage.c, the header messages of an object that give its dimensions,
--                       its layout, its filters, its type (Datatype), its attributes (Attribute)
--                       and its class (Class); the layout of chunks calls ChunkedData
--   FillObject, ...     src/fillDataObjects.c (interpretMessages, collectMetaData): the messages of a
--                       header and its continuations, each read by Message. FillObject/Headers has
--                       the header as it is written, FillObject/Matrix that of a matrix
--   Navigate            src/navigate.c, the bytes of the file that a header, a tree of chunks or the superblock
--                       is read from
-- Each definition has the name of the C function, in small letters. Tests in each part apply the
-- theorems to a concrete state.
--
-- The build modelled is NO_MEX, on Unix, with 64 bits. A heap is a function from addresses to nodes;
-- a command is a function from a memory to a result and a memory, or `none` for a fault: undefined
-- behaviour in C, such as a read through NULL or of a freed node. `malloc` is a parameter, and that it
-- returns addresses not in use is a hypothesis. A `size_t` that can wrap has the wrap written out,
-- but for the places and lengths of copies (PlaceData), where 2^64 bytes or more are a fault.
-- `index_t` is signed, and its overflow undefined in C: it is a fault in the products of the sizes
-- that a file gives and in the numbers of a request; places in an array and addresses in the file
-- are integers without a bound.
--
-- Loops over a queue run on its length, which the invariant makes the number of its nodes; the
-- loop of `cleanQueue` on one round more than the nodes held, and that of a search on one more
-- than the nodes queued. The loops over bytes and characters run on the length of the buffer,
-- those over the sizes and filters of a message on their number, the loop over the messages of a
-- header on the number of the messages left and one round for the last test, and that over the
-- parts of a data type on the bytes of the message. The walk over the tree of chunks has fuel
-- for its depth, and a tree that comes back to itself has none. The loop over the rows of a
-- chunk runs on the number of the object's elements, and that over the counters of the rows on
-- the entries of their array. The loops of `makeVarnameQueue` and `parseCoordinates` have a
-- counter of one byte and run on the length of the token: `none` is a token so long that the
-- counter never reaches its end.
--
-- Not modelled: the cache of maps of the main thread (`st_navigateTo` of src/navigate.c), of
-- which only the bytes that it gives are; the calls of `mt_navigateTo` with a size, which
-- nothing makes, and those on Windows; the graph of objects (src/createDataObjects.c, the rest
-- of src/fillDataObjects.c, src/getDataObjects.c, src/cleanup.c, src/init.c); the start and end
-- of the threads (the rest of src/placeChunkedData.c); the calls of MATLAB and of the system
-- (src/getmatvar_.c, src/mexSet.c, src/getSystemInfo.c); and the copies of libdeflate and mman-
-- win32, which are other projects'.
mod Common
pub mod FillObject
pub mod Heap
pub mod Ezq
pub mod Mtezq
pub mod Navigate
pub mod NumberHelper
pub mod ChunkedData
pub mod ChunkTree
pub mod Varname
pub mod Superblock
pub mod Message
pub mod Pages
pub mod PlaceData
