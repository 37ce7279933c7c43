-- ===== src/Elf/Tables.antt =====
-- src/Elf.cpp: load_table, which reads the entries of a table out of the file. `num_chunks` and
-- `chunksize` are shorts, given by their 16-bit patterns.
pub mod Chunks
use exmap.Prelude.{
  ℕ, zero, suc, ◌+◌, ◌*◌, ◌^◌, Bool, true, false, not, List, [], ◌∷◌, Option, none, some, ltb, leb,
  ◌==◌, ◌||◌, if◌then◌else◌, drop, take,
}
use exmap.Std.Streams.{Stream, good, seekg, read}
use exmap.Outcome.{Outcome, done, crash}

-- An unsigned long as an offset: from 2 ^ 63 on it is negative.
unfoldable pub as_offset : ℕ → Option ℕ
as_offset offset = if ltb offset (2 ^ 63) then some offset else none

-- `for (i = 0; i < read_size; i += chunksize)`, on the count of rounds.
unfoldable pub chunk_loop : ℕ → ℕ → ℕ → List ℕ → List (List ℕ)
chunk_loop zero i chunksize buffer = []
chunk_loop (suc rounds) i chunksize buffer =
    take chunksize (drop i buffer) ∷ chunk_loop rounds (i + chunksize) chunksize buffer

-- What follows the seek. A negative size asks alloca for more than there is.
unfoldable pub read_table : Stream → ℕ → ℕ → Outcome (Stream × List (List ℕ) × Bool)
unfolding good read chunk_loop
read_table is num_chunks chunksize =
    let (buffer, read_on) = read is (num_chunks * chunksize) in
    let rounds = (if chunksize == 0 then 0 else num_chunks) in
    if leb (2 ^ 15) chunksize
    then crash
    else if not (good read_on)
    then done (read_on, [], false)
    else done (read_on, chunk_loop rounds 0 chunksize buffer, true)

unfoldable pub load_table : Stream → ℕ → ℕ → ℕ → Outcome (Stream × List (List ℕ) × Bool)
unfolding seekg as_offset read_table
load_table is offset num_chunks chunksize =
    let sought = seekg is (as_offset offset) in
    if offset == 0
    then done (is, [], false)
    else if num_chunks == 0 || leb (2 ^ 15) num_chunks
    then done (is, [], false)
    else if not (good sought)
    then done (sought, [], false)
    else read_table sought num_chunks chunksize
