-- ===== src/Std.antt =====
-- The containers and streams of the C++ standard library that the program uses.
pub mod Sort
pub mod OrderedMap
pub mod Names
pub mod Sets
pub mod Streams
pub mod TextIn
pub mod Digits
