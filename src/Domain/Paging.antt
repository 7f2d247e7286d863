-- ===== src/Domain/Paging.antt =====
-- The pages of applyListQuery in packages/domain-core/src/index.ts: what it does with the filtered items.
pub mod Numbers
pub mod Walk
use webperf_selfhosted.Base.{
  ℕ, zero, suc, ◌+◌, ◌-◌, ◌*◌, ◌^◌, Option, none, some, List, [], ◌∷◌, ◌++◌, length, take, drop,
  ltb, if◌then◌else◌,
}
use webperf_selfhosted.Report.Csv.{digits, number_text}

-- `pageInfo`, less the filter, beside the items.
pub record Page {ℓ} (A : Type ℓ) : Type ℓ where
  pub items : List A
  pub page_size : ℕ
  pub total_count : ℕ
  pub next_page_token : Option (List ℕ)

-- `Number.parseInt(token, 10)` of a text of digits, which the schema's `/^\d+$/` admits.
unfoldable pub parse_int : ℕ → List ℕ → ℕ
parse_int value [] = value
parse_int value (c ∷ cs) = parse_int (value * 10 + (c - b'0')) cs

-- The least number that is read as Infinity.
unfoldable pub infinity : ℕ
infinity = 2 ^ 1024 - 2 ^ 970

-- A number from 2 ^ 53 on is read with rounding, which does not matter: no array is as long.
unfoldable pub offset_of : Option (List ℕ) → ℕ
unfolding parse_int infinity
offset_of none = 0
offset_of (some token) =
    let start_index = parse_int 0 token in if ltb start_index infinity then start_index else 0

module _ {ℓ} {A : Type ℓ} where
  unfoldable pub apply_list_query : List A → ℕ → Option (List ℕ) → Page A
  unfolding offset_of digits
  apply_list_query filtered_items page_size page_token =
      let offset = offset_of page_token in
      let paged_items = take page_size (drop offset filtered_items) in
      let next_offset = offset + length paged_items in
      record {
        items = paged_items;
        page_size = page_size;
        total_count = length filtered_items;
        next_page_token =
            if ltb next_offset (length filtered_items)
            then some (number_text next_offset)
            else none;
      }
