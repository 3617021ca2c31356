-- ===== src/Balloon.antt =====
-- The balloon device, src/devices/src/virtio/balloon/utils.rs: ranges of the pages to give back.
use firecracker.Base.{ℕ, ◌+◌, List, [], ◌∷◌, leb, ◌==◌, if◌then◌else◌, u32}
pub mod Sorting
pub mod Ranges
mod Examples

-- `sort_unstable` of the standard library, on numbers.
unfoldable pub insert : ℕ → List ℕ → List ℕ
insert x [] = x ∷ []
insert x (y ∷ ys) = let rest = insert x ys in if leb x y then x ∷ y ∷ ys else y ∷ rest

unfoldable pub sort_unstable : List ℕ → List ℕ
sort_unstable [] = []
sort_unstable (x ∷ xs) = insert x (sort_unstable xs)

-- The loop over the pages that are left: the page before, the start and the length of the range.
unfoldable pub compact_from : ℕ → ℕ → ℕ → List ℕ → List (ℕ × ℕ)
compact_from before previous length [] = (previous, length) ∷ []
compact_from before previous length (page ∷ pages) =
    let skipped = compact_from page previous length pages in
    let extended = compact_from page previous (u32 (length + 1)) pages in
    let started = compact_from page page 1 pages in
    if page == before
    then skipped
    else if page == u32 (previous + length)
    then extended
    else (previous, length) ∷ started

unfoldable pub compact_sorted : List ℕ → List (ℕ × ℕ)
compact_sorted [] = []
compact_sorted (page ∷ pages) = compact_from page page 1 pages

unfoldable pub compact_page_frame_numbers : List ℕ → List (ℕ × ℕ)
compact_page_frame_numbers v = compact_sorted (sort_unstable v)
