-- ===== src/Clients/Pagination.antt =====
-- fe/src/components/clients/ClientPagination.tsx: the buttons for pages. A missing or fractional number is
-- the backend's affair, so that the arguments are natural numbers, with 0 for a missing one.
use rr_net.Prelude.{
  ℕ, suc, ◌+◌, ◌-◌, ◌*◌, ◌≤◌, ◌<◌, ◌==◌, zero, ◌≡◌, leb, min, List, [], ◌∷◌, Option, none, some,
  arith, map, if◌then◌else◌,
}
use rr_net.Types.{or_else}

unfoldable pub safe_page : ℕ → ℕ
safe_page page = if page == 0 then 1 else page

unfoldable pub safe_page_size : ℕ → ℕ
safe_page_size size = if size == 0 then 10 else size

-- The numbers of the first and the last client that are shown.
unfoldable pub shown_range : (page page_size total : ℕ) → ℕ × ℕ
unfolding safe_page safe_page_size
shown_range page page_size total =
    let p = safe_page page in
    let n = safe_page_size page_size in ((p - 1) * n + 1, min (p * n) total)

unfoldable pub page_num : (safe_page total_pages i : ℕ) → ℕ
page_num p total i =
    if leb total 5
    then i + 1
    else if leb p 3
    then i + 1
    else if leb (total - 2) p
    then total - 4 + i
    else p - 2 + i

abbrev count_from : ℕ → ℕ → List ℕ
count_from i zero = []
count_from i (suc n) = i ∷ count_from (i + 1) n

abbrev button_count : ℕ → ℕ
button_count total = if leb 5 total then 5 else total

-- The numbers on the buttons; `none` when nothing is shown.
unfoldable pub page_buttons : (page total_pages : ℕ) → Option (List ℕ)
unfolding page_num safe_page
page_buttons page total =
    if leb total 1
    then none
    else some (map (page_num (safe_page page) total) (count_from 0 (button_count total)))

-- What the two arrows ask for; `none` where they are disabled.
unfoldable pub previous_page : (page : ℕ) → Option ℕ
unfolding safe_page
previous_page page = let p = safe_page page in if p == 1 then none else some (p - 1)

unfoldable pub next_page : (page total_pages : ℕ) → Option ℕ
unfolding safe_page
next_page page total = let p = safe_page page in if p == total then none else some (p + 1)

-- The place of the open page among the buttons.
abbrev place : (page total : ℕ) → ℕ
place page total =
    if leb total 5
    then page - 1
    else if leb page 3
    then page - 1
    else if leb (total - 2) page
    then page + 4 - total
    else 2

-- Where there are several pages, whatever page is open, every button leads to a page that exists, and
-- the next button to the next page.
pub page_num_lem :
    (page total i : ℕ)
    → 2 ≤ total
    → i < button_count total
    → let n = page_num (safe_page page) total in (1 ≤ n i) × (n i ≤ total) × (n (i + 1) ≡ n i + 1)
unfolding page_num safe_page
page_num_lem page total i h b = (ground arith, ground arith, ground arith)

-- A page that exists has a button while it is open, and the two arrows lead to pages that exist or
-- are disabled.
pub page_num-place :
    (page total : ℕ)
    → 2 ≤ total
    → 1 ≤ page
    → page ≤ total
    → (place page total < button_count total)
      × (page_num (safe_page page) total (place page total) ≡ page)
      × (1 ≤ or_else (previous_page page) page)
      × (or_else (next_page page total) page ≤ total)
unfolding page_num safe_page previous_page next_page
page_num-place page total h l u = (ground arith, ground arith, ground arith, ground arith)
