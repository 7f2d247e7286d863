-- ===== src/Tests/Paging.antt =====
-- Runs of the pages of packages/domain-core/src/index.ts, and the theorem at sample data.
use webperf_selfhosted.Base.{ℕ, ◌≤◌, ◌≡◌, refl, none, some, List, [], ◌∷◌, length, codes, leb→le}
use webperf_selfhosted.Report.Csv.{digits}
use webperf_selfhosted.Domain.Paging.{infinity, offset_of, parse_int, apply_list_query}
use webperf_selfhosted.Domain.Paging.Walk.{follow, follow_all}

abbrev sample_items : List ℕ
sample_items = 3 ∷ 1 ∷ 4 ∷ 1 ∷ 5 ∷ []

second_page : apply_list_query sample_items 2 (some (codes "2")) ≡ record {
  items = 4 ∷ 1 ∷ [];
  page_size = 2;
  total_count = 5;
  next_page_token = some (codes "4");
}
unfolding apply_list_query offset_of parse_int infinity digits
second_page = refl

past_the_end :
    apply_list_query sample_items 2 (some (codes "70"))
    ≡ record { items = []; page_size = 2; total_count = 5; next_page_token = none }
unfolding apply_list_query offset_of parse_int infinity digits
past_the_end = refl

enough : length sample_items ≤ infinity
unfolding infinity
enough = leb→le (length sample_items) infinity refl

follow_all_example : follow sample_items 2 6 none ≡ some sample_items
follow_all_example = follow_all sample_items 2 (leb→le 1 2 refl) enough
