-- ===== src/Page/Counts.antt =====
-- What a PagePool counts, in each of the two orders in which the writes of an increment happen.
use exmap.Prelude.{ℕ, ◌+◌, ◌≡◌, refl, List, [], ◌∷◌, ◌==◌, if◌then◌else◌, arith}
use exmap.Page.{
  Page, PagePool, increment_last, assignment_last, count, inc_page_count, inc_pages_count,
}

-- How many pages of a list have a cookie.
unfoldable pub occurrences : ℕ → List Page → ℕ
occurrences c [] = 0
occurrences c (p ∷ pages) = (if p.cookie == c then 1 else 0) + occurrences c pages

-- Where the increment is the last write, `inc_pages_count` adds to the count of every page the
-- number of its occurrences in the list.
pub count-inc_pages_count :
    (pp : PagePool) (pages : List Page) (page : Page)
    → count (inc_pages_count increment_last pp pages) page
      ≡ count pp page + occurrences page.cookie pages
unfolding inc_pages_count occurrences count
count-inc_pages_count pp [] page = omega arith
count-inc_pages_count pp (p ∷ pages) page =
    ground (arith, count-inc_pages_count (inc_page_count increment_last pp p) pages page)

-- Where the assignment is the last write, as C++17 has it, `inc_pages_count` changes no count.
pub count-inc_pages_count_assignment :
    (pp : PagePool) (pages : List Page) (page : Page)
    → count (inc_pages_count assignment_last pp pages) page ≡ count pp page
unfolding inc_pages_count count
count-inc_pages_count_assignment pp [] page = refl
count-inc_pages_count_assignment pp (p ∷ pages) page =
    ground
      (arith, count-inc_pages_count_assignment (inc_page_count assignment_last pp p) pages page)
