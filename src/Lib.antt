-- ===== src/Lib.antt =====
-- FreeGuard, a secure heap allocator that replaces malloc, free and pthread_create of a process.
--
-- The program and this library:
-- * libfreeguard.cpp, the entry points: Allocator. The global state is the record `Allocator`; the
--   initialisation has three states, and each entry point begins with `heapinitialize`.
-- * bibopheap.hh, the heap of small objects: Bibop. `initialize` lays out bags of one size class per
--   thread (Bibop.Init), `allocateSmallObject` and `freeSmallObject` (Bibop.Object) take objects from
--   a free list or a bump pointer (Bibop.Bump), addresses lead to shadow entries and back
--   (Bibop.Address), and the canaries of neighbours are checked at a free (Bibop.Neighbor).
--   Bibop.Object.Served states what a bag is between two calls of a program, Bibop.Whole the heap of
--   all bags, and Allocator.Course the steps of a program: allocations, frees and writes.
-- * bigheap.hh, the heap of objects above the threshold: BigHeap, each object in a mapping of its own.
-- * xthread.hh and threadstruct.hh, the slots of the threads: Threads.
-- * the setup of the stack area in libfreeguard.cpp, and mm.hh: Stacks, with the guard pages.
-- * hashmap.hh and hashfuncs.hh, the maps of the big heap and the threads: HashMap and HashFuncs, over the circular
--   lists of list.hh: Ring. HashMap.Assoc has the list of bindings that a map stands for, and
--   HashMap.Iterator the iteration.
-- * slist.h and dlist.h, the free lists: Slist and Dlist, over the memory of Links.
-- * xdefines.hh, constants and arithmetic: Xdefines, for the default build of the Makefile.
-- Base has shared types and lemmas, Examples concrete runs.
--
-- How code becomes definitions: a function is a definition of its name in lower case; an object that
-- it changes is an argument and a result. Memory is a function from addresses. Undefined behaviour, a
-- report that ends the process and a loop without end are the faults of Base.Outcome. Unsigned
-- arithmetic wraps at 2^64 where the code's can; sizes and offsets that the code computes once from
-- constants are written without the wrap. An access to a
-- shadow entry outside of the mapping, or to a byte that is protected, is a fault: the definitions of
-- allocation and free check each entry and canary that they access. What the system gives, the results
-- of mmap, malloc and pthread_create, random numbers, and what `Real::initializer` does to the
-- allocator, is an argument.
--
-- Bounds: the lists of slist.h are walked on fuel, one round for a node, and so is the loop of a
-- client over a map's iterator, one round for an entry and one for the end. All other loops go down on a
-- number that the code itself counts: `getEntry` on the bucket's count, `allocThreadIndex` on the
-- index. `initialize` draws bag sizes from 2^22 to 2^24. The shadow mapping is too short for the entries of
-- the last heaps; those of the first 1022 (Bibop.Layout) lie in it at every bag size, and the theorems
-- on courses of calls stay within these.
--
-- Not modelled: locks (each operation is one step), printing, the random generators, the dynamic
-- linking of real.cpp, the assembly that switches the main stack, and the code for CFREELIST and
-- DESTROY_ON_FREE, which the default build leaves out.
pub mod Base
pub mod Links
pub mod Xdefines
pub mod Slist
pub mod Dlist
pub mod Bibop
pub mod Ring
pub mod HashFuncs
pub mod HashMap
pub mod BigHeap
pub mod Stacks
pub mod Threads
pub mod Allocator
pub mod Examples
