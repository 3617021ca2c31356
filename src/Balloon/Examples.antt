-- ===== src/Balloon/Examples.antt =====
-- A test of the compaction of pages, and its theorem at a concrete input.
use firecracker.Base.{ℕ, ◌^◌, ◌<◌, ◌≡◌, refl, inl, inr, [], ◌∷◌, List, arith}
use firecracker.Balloon.{
  insert, sort_unstable, compact_from, compact_sorted, compact_page_frame_numbers,
}
use firecracker.Balloon.Sorting.{Has}
use firecracker.Balloon.Ranges.{IsCompacted, compact_page_frame_numbers-IsCompacted}

abbrev pages : List ℕ
pages = 7 ∷ 3 ∷ 4_294_967_295 ∷ 4 ∷ 7 ∷ 5 ∷ []

compact_test : compact_page_frame_numbers pages ≡ (3, 3) ∷ (7, 1) ∷ (4_294_967_295, 1) ∷ []
unfolding compact_page_frame_numbers sort_unstable insert compact_sorted compact_from
compact_test = refl

pages_small : (p : ℕ) → Has p pages → p < 2 ^ 32
pages_small p (inl e) = omega (arith, e)
pages_small p (inr (inl e)) = omega (arith, e)
pages_small p (inr (inr (inl e))) = omega (arith, e)
pages_small p (inr (inr (inr (inl e)))) = omega (arith, e)
pages_small p (inr (inr (inr (inr (inl e))))) = omega (arith, e)
pages_small p (inr (inr (inr (inr (inr (inl e)))))) = omega (arith, e)
pages_small p (inr (inr (inr (inr (inr (inr h)))))) = elim h [ ]

compact_page_frame_numbers-IsCompacted_example :
    IsCompacted pages (compact_page_frame_numbers pages)
compact_page_frame_numbers-IsCompacted_example =
    compact_page_frame_numbers-IsCompacted pages pages_small (omega arith)
