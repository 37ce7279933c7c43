-- ===== src/Page.antt =====
-- src/Exmap.cpp and src/Exmap.hpp: Page, one page of a process, and PagePool, which counts how
-- often each page is mapped over all processes.
pub mod Counts
use exmap.Prelude.{ℕ, ◌+◌, Bool, not, List, [], ◌∷◌, ◌==◌, if◌then◌else◌}

-- A cookie names a physical page or a swap slot.
pub record Page : Type 0 where
  pub cookie : ℕ
  pub resident : Bool
  pub writable : Bool

unfoldable pub is_mapped : Page → Bool
is_mapped p = not (p.cookie == 0)

unfoldable pub is_resident : Page → Bool
is_resident p = p.resident

unfoldable pub is_writable : Page → Bool
is_writable p = p.writable

-- `std::map<PageCookie, int> _counts`, of which only `[]` and `clear` are used. As `[]` enters a
-- zero for a key that is not there, the map is a function, and reading leaves it as it is. A
-- count is a natural number, so the model follows the int as long as the processes hold fewer than
-- 2 ^ 31 pages in all, those without a cookie included, which are all counted at 0.
pub record PagePool : Type 0 where
  pub counts : ℕ → ℕ

unfoldable pub clear : PagePool → PagePool
clear pp = record { counts = λ c. 0 }

unfoldable pub count : PagePool → Page → ℕ
count pp page = pp.counts page.cookie

-- `_counts[cookie] = n`
unfoldable pub store : PagePool → ℕ → ℕ → PagePool
store pp cookie n = record { counts = λ c. if c == cookie then n else pp.counts c }

-- The two writes of `_counts[c] = _counts[c]++`. Before C++17 their order is not specified; since
-- then the assignment is the last.
pub data WriteOrder : Type 0 where
  increment_last : WriteOrder
  assignment_last : WriteOrder

unfoldable pub inc_page_count : WriteOrder → PagePool → Page → PagePool
unfolding store
inc_page_count increment_last pp page =
    let old = pp.counts page.cookie in store (store pp page.cookie old) page.cookie (old + 1)
inc_page_count assignment_last pp page =
    let old = pp.counts page.cookie in store (store pp page.cookie (old + 1)) page.cookie old

unfoldable pub inc_pages_count : WriteOrder → PagePool → List Page → PagePool
unfolding inc_page_count
inc_pages_count order pp [] = pp
inc_pages_count order pp (it ∷ pages) = inc_pages_count order (inc_page_count order pp it) pages
