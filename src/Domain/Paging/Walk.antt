-- ===== src/Domain/Paging/Walk.antt =====
-- A client that follows the page tokens sees every item once.
use webperf_selfhosted.Base.{
  ℕ, zero, suc, ◌+◌, ◌<◌, ◌≤◌, ◌≡◌, refl, sym, ◌∙◌, ap, false, Option, none, some, List, [], ◌∷◌,
  ◌++◌, length, take, drop, ltb, ltb→lt, lt→ltb, Bool-cases, inl, inr, arith,
}
use webperf_selfhosted.Report.Csv.{number_text}
use webperf_selfhosted.Domain.Paging.{infinity, offset_of, apply_list_query}
use webperf_selfhosted.Domain.Paging.Numbers.{parse_int-number_text}

offset_of-number_text : (n : ℕ) → n < infinity → offset_of (some (number_text n)) ≡ n
unfolding offset_of
offset_of-number_text n h =
    let read = parse_int-number_text n in let below = lt→ltb n infinity h in rw read (rw below refl)

module _ {ℓ} {A : Type ℓ} where
  abbrev put_before : List A → Option (List A) → Option (List A)
  put_before page none = none
  put_before page (some rest) = some (page ++ rest)

  abbrev next_pages : List A → (List ℕ → Option (List A)) → Option (List ℕ) → Option (List A)
  next_pages page more none = some page
  next_pages page more (some next) = put_before page (more next)

  -- The items of the pages from a token on, if the last page is reached.
  unfoldable pub follow : List A → ℕ → ℕ → Option (List ℕ) → Option (List A)
  follow items size zero token = none
  follow items size (suc fuel) token =
      let page = apply_list_query items size token in
      next_pages page.items (λ next. follow items size fuel (some next)) page.next_page_token

  take-drop : (n : ℕ) (xs : List A) → take n xs ++ drop (length (take n xs)) xs ≡ xs
  take-drop zero xs = refl
  take-drop (suc n) [] = refl
  take-drop (suc n) (x ∷ xs) = ap (λ ys. x ∷ ys) (take-drop n xs)

  abbrev empty : List A
  empty = []

  drop_nil : (n : ℕ) → drop n empty ≡ empty
  drop_nil zero = refl
  drop_nil (suc n) = refl

  drop-drop : (a b : ℕ) (xs : List A) → drop (a + b) xs ≡ drop b (drop a xs)
  drop-drop zero b xs = let sum : 0 + b ≡ b = omega arith in ap (λ n. drop n xs) sum
  drop-drop (suc a) b [] = drop_nil (suc a + b) ∙ sym (drop_nil b)
  drop-drop (suc a) b (x ∷ xs) =
      let sum : suc a + b ≡ suc (a + b) = omega arith in
      ap (λ n. drop n (x ∷ xs)) sum ∙ drop-drop a b xs

  length-drop : (n : ℕ) (xs : List A) → n ≤ length xs → n + length (drop n xs) ≡ length xs
  length-drop zero xs h = omega arith
  length-drop (suc n) [] h = absurd (omega arith)
  length-drop (suc n) (x ∷ xs) h = let rest = length-drop n xs (omega arith) in omega arith

  take_all : (n : ℕ) (xs : List A) → length xs ≤ length (take n xs) → take n xs ≡ xs
  take_all zero [] h = refl
  take_all zero (x ∷ xs) h = absurd (omega arith)
  take_all (suc n) [] h = refl
  take_all (suc n) (x ∷ xs) h = ap (λ ys. x ∷ ys) (take_all n xs (omega arith))

  take_some : (n : ℕ) (xs : List A) → 1 ≤ n → 1 ≤ length xs → 1 ≤ length (take n xs)
  take_some zero xs h k = absurd (omega arith)
  take_some (suc n) [] h k = absurd (omega arith)
  take_some (suc n) (x ∷ xs) h k = omega arith

  abbrev page_of : List A → ℕ → ℕ → List A
  page_of items size offset = take size (drop offset items)

  last_page :
      (items : List A) (size offset : ℕ)
      → offset ≤ length items
      → ltb (offset + length (page_of items size offset)) (length items) ≡ false
      → page_of items size offset ≡ drop offset items
  last_page items size offset h k =
      let sum = length-drop offset items h in
      let full : length (drop offset items) ≤ length (page_of items size offset) = ground arith in
      take_all size (drop offset items) full

  page_grows :
      (items : List A) (size offset : ℕ)
      → 1 ≤ size
      → offset ≤ length items
      → offset + length (page_of items size offset) < length items
      → 1 ≤ length (page_of items size offset)
  page_grows items size offset h k l =
      let sum = length-drop offset items k in take_some size (drop offset items) h (omega arith)

  page_then_rest :
      (items : List A) (size offset : ℕ)
      → page_of items size offset ++ drop (offset + length (page_of items size offset)) items
        ≡ drop offset items
  page_then_rest items size offset =
      ap (λ rest. page_of items size offset ++ rest)
        (drop-drop offset (length (page_of items size offset)) items)
      ∙ take-drop size (drop offset items)

  follow_from :
      (items : List A) (size fuel offset : ℕ) (token : Option (List ℕ))
      → 1 ≤ size
      → length items ≤ infinity
      → offset_of token ≡ offset
      → offset ≤ length items
      → length items < offset + fuel
      → follow items size fuel token ≡ some (drop offset items)
  unfolding follow apply_list_query
  follow_from items size zero offset token one top e h k = absurd (omega arith)
  follow_from items size (suc fuel) offset token one top e h k =
      let next = offset + length (page_of items size offset) in
      elim (Bool-cases (ltb next (length items))) [
        | inl l ↦
            let below = ltb→lt next (length items) l in
            let grows = page_grows items size offset one h below in
            let read = offset_of-number_text next (omega arith) in
            let rest =
              follow_from items size fuel next (some (number_text next)) one top read (omega arith)
                (omega arith) in
            rw e (rw l (rw rest (ap some (page_then_rest items size offset))))
        | inr l ↦ rw e (rw l (ap some (last_page items size offset h l)))
      ]

  -- With pages of at least one item and no more items than the numbers before Infinity, a client that
  -- starts without a token and follows the tokens reaches the last page within as many requests as
  -- there are items and one more, and has then received the items in their order, each once.
  pub follow_all :
      (items : List A) (size : ℕ)
      → 1 ≤ size
      → length items ≤ infinity
      → follow items size (suc (length items)) none ≡ some items
  unfolding offset_of
  follow_all items size one top =
      follow_from items size (suc (length items)) 0 none one top refl (omega arith) (omega arith)
