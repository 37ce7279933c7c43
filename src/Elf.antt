-- ===== src/Elf.antt =====
-- src/Elf.cpp and src/Elf.hpp.
pub mod Paging
pub mod Segment
pub mod Layout
pub mod Tables
pub mod Section
pub mod Image
pub mod Loading
pub mod File
