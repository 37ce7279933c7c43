-- ===== src/Lib.antt =====
-- exmap shows how the memory of the running processes is shared. A kernel module lists the pages
-- of each area of a process; exmap reads that list and /proc/<pid>/maps, splits each area into maps
-- by the segments of the ELF file behind it, and sums the sizes of the maps by process and by file.
-- This library models the C++ code that does so, and proves what it computes.
--
-- The parts, from the bottom up, with the files of the repository that they stand for:
--   Range (src/Range.cpp, src/Range.hpp): half-open ranges of addresses. Range.antt has the
--     operations on a range or two, Range.Lists those on lists: merge_list, restrict,
--     invert_list, any_overlap. Range.Cover says which addresses a list covers, and Range.Merge,
--     Range.Restrict, Range.Invert and Range.Overlap prove the operations right against that.
--   Elf (src/Elf.cpp, src/Elf.hpp): Elf.Paging has page_align_down, Elf.Segment the program headers,
--     Elf.Layout the structs of elf.h as bytes, Elf.Tables load_table, Elf.Section the sections,
--     string tables and symbols, Elf.File a file, and Elf.File.Lookup what it is asked for.
--     Elf.Tables.Chunks, Elf.Image and Elf.Loading read back the bytes of a file with
--     its segments, Elf.Section.Names, Elf.Section.Symbols and Elf.File.Sections with its names,
--     symbols and sections, and Elf.Section.Undefined has what a name that is too long does.
--   Page (Page, PagePool of src/Exmap.cpp and src/Exmap.hpp): a page, and how often each page is
--     mapped over all processes.
--   Vma (Vma of src/Exmap.cpp): an area of a process. Vma.Overlaps says which pages a range
--     overlaps, and Vma.Several and Vma.Covering prove get_pages_for_range against it.
--   Sizes, Map (Sizes, Map of src/Exmap.cpp): the measures, a range of an area with one meaning, and
--     its sizes. Map.Exact, Map.Sizing and Map.Sums prove the sizes exact, Map.Pointers has
--     intersect_lists.
--   File (File, FilePool of src/Exmap.cpp): the files by their names, shared by all processes.
--   Calculator (MapCalculator of src/Exmap.cpp): the maps of a process. Its state is in
--     Calculator.antt; Walk, Segments, Holes, Sanity and Run follow the methods of the class.
--     Calculator.Grouping, Shift, Coverage, Checked and Accepted have the proofs of single methods;
--     Calculator.Steps, Inside and Soundness carry an invariant through all of them, and
--     Calculator.Complete concludes what calc_maps assigns.
--   System, Process, Snapshot (SysInfo, Process, Snapshot of src/Exmap.cpp and src/Exmap.hpp): what
--     the system tells, the loading of a process, and of all of them. Process.Loading and
--     Snapshot.Counting follow the counts of the page pool, and Process.Matched gives the areas their
--     pages; Process.Mapping calls the calculator;
--     Process.Totals has the sizes of processes and of files over a range of an ELF file, and
--     Process.Safety shows that they end without a null range.
--   Kernel (kernel/exmap.c): the kernel module behind /proc/exmap. Kernel.Setup has a write of a pid,
--     Kernel.antt a read of the next lines. Kernel.Walk says which entries the page tables have for
--     an area; Kernel.Written has the steps of a write, and Kernel.Saving and Kernel.Stale conclude
--     from them. Kernel.Reading and Kernel.Chunks follow the reads, from the lines of one area to the
--     whole file.
--   Linux (LinuxSysInfo of src/Exmap.cpp): the reading of /proc, with Linux.PageLine and
--     Linux.PageInfo on the lines of the kernel module, Linux.Maps and Linux.MapsFile on those of
--     /proc/<pid>/maps. Linux.Listed says what is to be read of the page tables of a process, and
--     Linux.Served has the reading of /proc/exmap together with the kernel module that serves it.
--   TextFile (jutil/jutil.cpp): read_textfile. TextFile.Lines reads lines back.
--   Strings (jutil/jutil.cpp): chomp, trim, count_occurences. Strings.Trimming and Strings.Counting
--     prove them against a direct description.
--   Std: what the program uses of the C++ standard library: list::sort, map, set, string,
--     ifstream, stringstream, and printf of numbers (Std.Digits), with their round trip.
--   Examples: runs on small inputs, and each theorem at an input that meets its conditions.
-- A Range feeds a Vma and a Map; the calculator calls Range.invert_list for the holes between maps
-- and writes the file pool; the sizes of a map come from its area's pages and the page pool.
--
-- How the code is read. An unsigned long is a number below 2 ^ 64, with its wrap-around written out.
-- The ints that only count, of areas, of the pages of an area and of the uses of a page, are natural
-- numbers: the model follows the code while there are fewer than 2 ^ 31 of each; the conditions of
-- Kernel.Saving and Linux.Served say so for areas and their pages.
-- A shared pointer to an object that is never written again is the object; a pointer to a map also
-- has its address, a pointer to a file is the name in the pool, and one to a process its pid. A null
-- pointer is `none`. Undefined behaviour, such as a read past the end of a list, is the outcome
-- `crash`. Loops over lists are recursion on the list, and those over page numbers on the count of
-- rounds. Only the reads of /proc/exmap until one gives nothing are on fuel, for which one more than
-- the bytes to show is proved enough. Printed numbers are below 2 ^ 64, and have at most 65 digits in
-- any base. Warnings and debug output are left out.
-- Doubles are an interface (Double.antt) with the law that whole numbers up to 2 ^ 53 are exact.
-- The page size, the file system with its bytes, and the kernel behind the module, with its page
-- tables, tasks and allocator, are parameters.
--
-- Not modelled: the writing of files and the reading of directories, the change of the user when an
-- ELF file is opened, the registration of the kernel module, the command line tools, the window
-- program and the tests.
pub mod Prelude
pub mod Std
pub mod Range
pub mod Elf
pub mod Page
pub mod Vma
pub mod Double
pub mod Sizes
pub mod Map
pub mod Outcome
pub mod File
pub mod Strings
pub mod System
pub mod TextFile
pub mod Kernel
pub mod Linux
pub mod Process
pub mod Calculator
pub mod Snapshot
pub mod Examples
