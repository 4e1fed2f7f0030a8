-- ===== src/Lib.antt =====
-- A model of phat, which reads the heap dump of a Java machine (HPROF) and prints what is in it. The
-- program is phat.c; talloc.c and rbtree.c are copies of other projects.
--
-- readDump reads the header and then one record after the other. Records of texts and of classes fill
-- the tables of strings and classes; the record of a heap goes to readHeap, which has a handler for
-- each kind of sub-record: roots, classes (readClass), instances, arrays (readArray). Objects are
-- filed with the position of their contents; only the report behind the heap resolves them
-- (resolveInstance, which seeks in the file and adds arcs between classes) and prints them.
--
-- The files:
--   Types: the structures of phat.c. A pointer is a position in a store of the state.
--   Env: the libraries as parameters: trbt_* of rbtree.h with the laws of a map, crc32 of zlib, and
--     what a block of talloc holds before it is written; Env/Ordered is about trees with ordered keys.
--   Stdio: an open file, which is its bytes and a position: getc, fread, fseek.
--   Dump: `struct jdump` with the globals, and the monad of the functions that change it.
--   Reader: readUshort, readUint, readUlong, readIdent, countbytes; Reader/Words is about the numbers
--     read, Reader/Reads about commands that consume given bytes and how they compose.
--   Text: hideSpecials, readVersion, sigFromType.      Value: readValue.
--   Class: readClass, mkcinfo, hashKey, findClass.     Array: readArray, makeObj.
--   Arcs: arc_lookup, arc_add.   Resolve: resolveInstance(s), resolveClass(es); Resolve/Layout:
--     resolveSClassSize, resolveClassNode; Resolve/Contents is about arrays that are read and resolved,
--     Resolve/Chain about superclasses, Resolve/Own about the fields of a class and those it inherits
--     (Resolve/Own/Block: those of one class, Resolve/Own/Above and Resolve/Own/Inherited: those of the
--     superclasses), Resolve/Fields, Resolve/Placed, Resolve/Instances and Resolve/Readback about an
--     instance.
--   Print: printInstance, printString, printInstances, collectStats; Print/Classes: printClass_r,
--     printClass; Print/Elements and Print/Arrays are about arrays of primitives, Print/Circles about
--     arrays in themselves, Print/Fields and Print/Instances about instances.
--   Heap: readHeap with its handlers and mkrinfo.   Main: readDump; Main/Options: main; Main/Faults is
--     about headers that are refused, Main/Entries and Main/Whole about a dump from its first byte on.
--   Graph: arc_init, mg_dfn and what it calls, which number the classes along the arcs; Graph/Sort:
--     cmp_arc and the sorts of arcs; Graph/Flow: cyc_iter, topo_sort, size_sort, prop_flags, prop_size,
--     cycle_size; Graph/Assemble: arc_iter, the prints, mg_assemble. Graph/Chains, Graph/Insertion,
--     Graph/Rounds, Graph/Sorted and Graph/Children lead to the sorts; Graph/Numbering (the invariant),
--     Graph/Steps, Graph/Topological and Graph/Roots are about the numbers that mg_dfn gives to classes
--     without cycles, Graph/Alone about a class without arcs, Graph/Members about mg_postvisit at a
--     cycle, Graph/Cycles about cycle_size, Graph/Walks and Graph/Prints about
--     Graph/Assemble, Arcs/Twice about arc_add.
--   Tests: concrete inputs.
--
-- How the state corresponds: the trees are Env's, keyed by numbers that each call cuts to 32 bits;
-- `classes`, `objects` and `arcs` are the blocks that cinfo, hobject and Arc pointers refer to; `out`
-- is what has been printed, a constructor for each form of line. A run returns, exits with a code, or
-- is undefined where the code follows a null pointer, uses a variable without a value or writes
-- outside an array. Integers are natural numbers with their wrap-around written out: `hsize` is taken
-- modulo 2^32.
--
-- Bounds and fuel: the loop of readHeap takes fuel, where a round per record is enough; the loop of
-- printClass takes as many rounds as the tree has nodes, which is enough; a sort of arcs takes as many
-- as it has arcs, and the size of a class one more than it has superclasses. The resolver, the printer
-- and the search of the graph take fuel for the depth of their recursion; for the search of a graph
-- without cycles the length of a chain of arcs and the number of arcs from a class are enough. A run
-- that has too little ends as `out_of_fuel` and never as a result; a loop that does not end has
-- `out_of_fuel` on any fuel.
--
-- Not modelled: the messages on the standard error and the debug output (`debug` is 0); what the
-- functions that mg_assemble runs on objects and on roots read there, behind the end of these, so that
-- such a call is undefined; the Samba allocator and the red-black tree themselves. The theorems about
-- records are about dumps of version 1.0.1 or later with 4-byte identifiers. The number of fields of a
-- class with those that it inherits, and their offsets, are not cut to an `int`, and talloc is taken to
-- have room for them: a class has at most 65535 fields of its own. An array of values that talloc_array
-- refuses is modelled.
pub mod Arcs
pub mod Array
pub mod Base
pub mod Class
pub mod Dump
pub mod Env
pub mod Graph
pub mod Heap
pub mod Main
pub mod Print
pub mod Reader
pub mod Resolve
pub mod Stdio
pub mod Tests
pub mod Text
pub mod Types
pub mod Value
