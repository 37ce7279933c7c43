-- ===== src/Elf/Tables/Chunks.antt =====
-- load_table reads the entries that lie one behind another in the file.
use mathlib.Core.List.{append-nil, append_assoc}
use mathlib.Core.Path.{ap₂}
use exmap.Prelude.{
  ℕ, ◌+◌, ◌*◌, ◌^◌, ◌≤◌, ◌<◌, ◌≡◌, ◌≢◌, refl, ap, ◌∙◌, sym, true, false, List, [], ◌∷◌, ◌++◌, arith,
  length, drop, take, length-append, All, joined, drop-append, take-append,
}
use exmap.Std.Streams.{Stream, good, seekg, read}
use exmap.Outcome.{done}
use exmap.Elf.Tables.{as_offset, chunk_loop, read_table, load_table}

abbrev pub HaveSize : ℕ → List (List ℕ) → Type 0
HaveSize n entries = All (λ (e : List ℕ). length e ≡ n) entries

pub length-joined :
    (n : ℕ) (entries : List (List ℕ))
    → HaveSize n entries
    → length (joined entries) ≡ length entries * n
unfolding joined
length-joined n [] h = omega arith
length-joined n (e ∷ entries) h =
    length-append e (joined entries) ∙ grind (arith, h.0, length-joined n entries h.1)

-- The bytes of the entry behind `front`.
entry_at :
    (n : ℕ) (front e behind : List ℕ)
    → length e ≡ n
    → take n (drop (length front) (front ++ (e ++ behind))) ≡ e
entry_at n front e behind h =
    rw (drop-append front (e ++ behind))
      (ap (λ (k : ℕ). take k (e ++ behind)) (sym h) ∙ take-append e behind)

-- The rounds read the entries, whatever lies in front of them and behind.
pub chunk_loop-joined :
    (n : ℕ) (front : List ℕ) (entries : List (List ℕ)) (behind : List ℕ)
    → HaveSize n entries
    → chunk_loop (length entries) (length front) n (front ++ (joined entries ++ behind)) ≡ entries
unfolding chunk_loop joined
chunk_loop-joined n front [] behind h = refl
chunk_loop-joined n front (e ∷ entries) behind h =
    let next : length front + n ≡ length (front ++ e) = omega (arith, h.0, length-append front e) in
    ap₂ ◌∷◌ (rw (append_assoc e (joined entries) behind) (entry_at n front e _ (h.0))) (
      ap₂ (λ (i : ℕ) (buffer : List ℕ). chunk_loop (length entries) i n buffer) next
        (rw (append_assoc e (joined entries) behind) (sym (append_assoc front e _)))
      ∙ chunk_loop-joined n (front ++ e) entries behind h.1)

pub read_full :
    (is : Stream) (n : ℕ)
    → good is ≡ true
    → n ≤ length (drop is.pos is.content)
    → read is n ≡ (take n (drop is.pos is.content), record is { pos = is.pos + n })
unfolding read
read_full is n g h = ground arith

read_table_full :
    (is : Stream) (num n : ℕ)
    → good is ≡ true
    → 0 < n
    → n < 2 ^ 15
    → num * n ≤ length (drop is.pos is.content)
    → read_table is num n
      ≡ done (
        record is { pos = is.pos + num * n },
        chunk_loop num 0 n (take (num * n) (drop is.pos is.content)),
        true,
      )
unfolding read_table
read_table_full is num n g wide narrow h =
    rw (read_full is (num * n) g h, read_table) (ground (arith, g))

load_table_sought :
    (is : Stream) (offset num n : ℕ)
    → is.fail ≡ false
    → 0 < offset
    → offset < 2 ^ 63
    → 0 < num
    → num < 2 ^ 15
    → load_table is offset num n ≡ read_table (record is { pos = offset; eof = false }) num n
unfolding load_table seekg as_offset good
load_table_sought is offset num n ok h small some_chunks few = ground arith

is_good :
    (is : Stream) (offset : ℕ)
    → is.fail ≡ false
    → good (record is { pos = offset; eof = false }) ≡ true
unfolding good
is_good is offset ok = ground arith

length-pos : (entries : List (List ℕ)) → entries ≢ [] → 0 < length entries
length-pos [] h = absurd (h refl)
length-pos (e ∷ entries) h = omega arith

-- Where the entries lie at the offset, and there are between 1 and 2 ^ 15 - 1 of them, `load_table`
-- reads them.
pub load_table-joined :
    (is : Stream) (front : List ℕ) (entries : List (List ℕ)) (behind : List ℕ) (n : ℕ)
    → is.fail ≡ false
    → is.content ≡ front ++ (joined entries ++ behind)
    → 0 < length front
    → length front < 2 ^ 63
    → HaveSize n entries
    → 0 < n
    → n < 2 ^ 15
    → entries ≢ []
    → length entries < 2 ^ 15
    → load_table is (length front) (length entries) n
      ≡ done (record is { pos = length front + length entries * n; eof = false }, entries, true)
load_table-joined is front entries behind n ok lies some_front small sizes wide narrow ne few =
    load_table_sought is (length front) (length entries) n ok some_front small
      (length-pos entries ne) few
    ∙ read_table_full _ (length entries) n opened_again wide narrow enough
    ∙ ap
        (λ (l : List (List ℕ)).
          done (record is { pos = length front + length entries * n; eof = false }, l, true))
        all
  where
    opened_again : good (record is { pos = length front; eof = false }) ≡ true
    opened_again = is_good is (length front) ok

    rest : drop (length front) is.content ≡ joined entries ++ behind
    rest = rw lies (drop-append front _)

    size : length (joined entries) ≡ length entries * n
    size = length-joined n entries sizes

    enough : length entries * n ≤ length (drop (length front) is.content)
    enough = rw rest (omega (arith, size, length-append (joined entries) behind))

    all :
        chunk_loop (length entries) 0 n (take (length entries * n) (drop (length front) is.content))
        ≡ entries
    all =
        rw (rest, ← size, take-append (joined entries) behind)
          (ap (chunk_loop (length entries) 0 n) (sym (append-nil (joined entries)))
            ∙ chunk_loop-joined n [] entries [] sizes)
