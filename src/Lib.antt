-- ===== src/Lib.antt =====
-- tiny-libc: a C library for x86-64 Linux that needs no other. This is a model of its C sources with
-- the properties that make them correct. Paths are from the repository's root.
--
-- Parts and files
--   Prelude       shared names, tests, lists, integers, powers of two, memory
--   Crt           libc/src/crt.c: clz128, __udivmodti4, __divmodti4 and the four functions the compiler
--                 calls. Leading is about clz128, Divide about the unsigned loop, Signed about the rest.
--   Strings       libc/src/string.c, function by function over a memory of bytes. Copy is about memcpy,
--                 memmove and memset, Scan about strlen, strchr, memchr and strcmp, Build about strcpy,
--                 strcat and atoi.
--   Time          libc/src/localtime.c: __secs_to_tm. Civil is the calendar by itself, Cycle the leap
--                 years within a cycle of 400, Correct the result.
--   Stdio         libc/src/stdio.c. Types has struct file_buffer, struct FILE and the three files, Output
--                 the functions that write (fflush_unlocked, fputbuf_unlocked, fputc, fputs, fwrite and
--                 _out_file), Input those that read (fgetbuf_unlocked, fgetc, fread).
--                 Formatted has vsnprintf and vfprintf.
--   Printf        libc/src/printf.c. Output has the flags and _out_rev, Integer _ntoa_format and
--                 _ntoa_long, Format the parser of a conversion, Convert the specifiers and _vsnprintf.
--                 Double has _ftoa and Double.Scientific _etoa; Double.Fraction is about the digits,
--                 Double.Bounds about the buffer, Double.Written about what is written, Double.Calls
--                 about how deep the two call each other. Convert calls these.
--   Pthread       libc/src/pthread. Mutex is mutex.c as a step relation, Invariant what each step keeps,
--                 Safety what follows. Once is once.c and Cond is cond.c, in the
--                 same way; Cond.Signals says what becomes of signals.
--   Arch          libc/arch/x86_64-linux.c: __page_alloc, with what the system call brk returns as a
--                 parameter. Pages is about the ranges that it returns.
--   Walloc        libc/src/walloc.c. Walloc itself has the computations on sizes and addresses, State the
--                 static variables, Merge the compaction of free large objects, Large
--                 allocate_large_object, Small the small objects, malloc, free and malloc_usable_size.
--                 Sizes is about the size class that malloc chooses, Chain about lists in memory, Carve
--                 about the objects of a chunk, BestFit about the search for a large object, Split about
--                 its tail, Allocate about allocate_large_object as a whole, Usable about malloc of small
--                 sizes, RoundTrip about malloc and free one after the other, FreeLists and WholeChunks
--                 about the free lists of all kinds that malloc and free keep. Unlink, Absorb, Links,
--                 Round, Compact and Compaction are about the merging of free large objects.
--   Stdlib        libc/src/stdlib.c: realloc and calloc over Walloc, on a memory of bytes in which a call of
--                 the allocator finds and leaves its words. Realloc is about the bytes that they keep.
--   Clock         libc/src/time.c, __wait_abs of libc/src/pthread/futex.h, and __unixtime_nsec and the
--                 timeout of __wait of libc/arch/x86_64-linux.c. Deadline is about how long a wait lasts.
--   Start         libc/src/entrypoint.c: what runs before and after main, as a list of events. Order is
--                 about their order.
--
-- How they interact
--   The functions of stdio.c hold the mutex of a buffer around each `_unlocked` function, so these are
--   modelled as functions of the buffer alone, and the mutex by itself. The kernel is a list of answers
--   to the calls of write and read on a file; what it has taken or given is part of the state.
--
--   The allocator asks Arch for pages. A call of malloc, free or malloc_usable_size holds walloc_mutex
--   from its first statement to its last, so it is one step on the state. In Walloc memory is a memory of
--   64-bit words, which the program may change between two calls; Stdlib keeps bytes, and a call of the
--   allocator finds its words in them and leaves them there.
--
--   `_vsnprintf` writes through a function that takes one character; here it is a parameter, as is what
--   it writes to. `vsnprintf` gives it a function that stores in memory, `vfprintf` one that puts into
--   a file, and atoi is checked against what vsnprintf leaves in memory.
--
-- How the code is read
--   Numbers are naturals; an unsigned w-bit integer has its reduction modulo 2 ^ w written out where it
--   can wrap. A memory is a function from addresses to bytes. A `char` is signed. `Option` marks a run
--   that does not return (no answer of the kernel left, or no fuel) and the theorems that a function
--   returns say how much is enough: one unit more than the bytes of the string, as many answers as
--   bytes. The loop of _vsnprintf has one unit more than the bytes of the format, each round taking one
--   at least; the 32 units of the loops that fill the buffer of digits are its size. The loops of the
--   allocator that walk a list have one unit more than its length, those of the compaction one more
--   than twice its length, and carving a chunk has 33, one more than the objects of the smallest kind.
--   _ftoa and _etoa call each other; the fuel counts the calls, and _vsnprintf gives them three, enough
--   where _etoa brings a value within 10 ^ 9. A text is taken to be shorter than 2 ^ 64 bytes. The loop of
--   __udivmodti4 has 130 units, two more than the bits of an operand, so that it never lacks any.
--   Threads are interleaved in any order, one atomic operation or system call at a time, and runs are
--   of any length.
--
-- Not modelled
--   libc/src/math and libc/src/fenv.c, which compute on doubles; the arithmetic of doubles, which is a
--   record of operations; strtod, libc/src/ctype.c, localtime_r, errno and the wrappers of system
--   calls; the assembly of the entry and of the system calls; what the functions that run before and
--   after main do; the Rust crates, the demonstration program and the build files.
pub mod Prelude
pub mod Crt
pub mod Strings
pub mod Time
pub mod Stdio
pub mod Stdlib
pub mod Pthread
pub mod Printf
pub mod Walloc
pub mod Arch
pub mod Clock
pub mod Start
