-- ===== src/Report/Csv/RoundTrip.antt =====
-- What is written is read back.
use webperf_selfhosted.Base.{every}
use webperf_selfhosted.Report.Monitor.{CheckProfile, RunReportSummary}
use webperf_selfhosted.Report.Csv.{csv_run, csv_rows, csv_header, build_check_profile_report_csv}
use webperf_selfhosted.Base.{
  ℕ, ◌≡◌, refl, sym, ◌∙◌, ap, Bool, true, false, ◌||◌, List, [], ◌∷◌, ◌++◌, map, ◌==◌, any, arith,
  Bool-cases, inl, inr,
}
use webperf_selfhosted.Report.Csv.Reader.{
  at_start, in_plain, in_quoted, after_quote, open_unit, open_field, open_row, read_csv_from,
  read_csv,
}
use webperf_selfhosted.Report.Csv.{double_quotes, is_special, escape_field, join, csv_row, csv}

-- A text before the open field.
abbrev open_text : List ℕ → List (List (List ℕ)) → List (List (List ℕ))
open_text [] rows = rows
open_text (c ∷ cs) rows = open_unit c (open_text cs rows)

-- The rest of the text after a field: nothing, or a separator and more.
abbrev IsRest : List ℕ → Type 0
IsRest [] = Unit
IsRest (c ∷ cs) = (c == b',' || c == 10) ≡ true

rest_mode :
    (rest : List ℕ)
    → IsRest rest
    → (read_csv_from at_start rest ≡ read_csv_from in_plain rest)
      × (read_csv_from after_quote rest ≡ read_csv_from in_plain rest)
unfolding read_csv_from
rest_mode [] h = (refl, refl)
rest_mode (c ∷ cs) h = ground (arith, h)

read_plain :
    (f rest : List ℕ)
    → any is_special f ≡ false
    → read_csv_from in_plain (f ++ rest) ≡ open_text f (read_csv_from in_plain rest)
unfolding read_csv_from
read_plain [] rest h = refl
read_plain (c ∷ cs) rest h = ground (arith, h, read_plain cs rest)

read_plain_start :
    (f rest : List ℕ)
    → IsRest rest
    → any is_special f ≡ false
    → read_csv_from at_start (f ++ rest) ≡ open_text f (read_csv_from in_plain rest)
unfolding read_csv_from
read_plain_start [] rest r h = (rest_mode rest r).0
read_plain_start (c ∷ cs) rest r h = ground (arith, h, read_plain cs rest)

read_quoted :
    (f rest : List ℕ)
    → IsRest rest
    → read_csv_from in_quoted (double_quotes f ++ b'"' ∷ rest)
      ≡ open_text f (read_csv_from in_plain rest)
unfolding read_csv_from double_quotes
read_quoted [] rest r = (rest_mode rest r).1
read_quoted (c ∷ cs) rest r = ground (arith, read_quoted cs rest r)

special-double_quotes : (f : List ℕ) → any is_special (double_quotes f) ≡ any is_special f
unfolding double_quotes
special-double_quotes [] = refl
special-double_quotes (c ∷ cs) = ground (arith, special-double_quotes cs)

double_quotes-plain : (f : List ℕ) → any is_special f ≡ false → double_quotes f ≡ f
unfolding double_quotes
double_quotes-plain [] h = refl
double_quotes-plain (c ∷ cs) h = ground (arith, h, double_quotes-plain cs)

append_quote : (xs rest : List ℕ) → (xs ++ b'"' ∷ []) ++ rest ≡ xs ++ (b'"' ∷ rest)
append_quote [] rest = refl
append_quote (x ∷ xs) rest = ap (λ ts. x ∷ ts) (append_quote xs rest)

append_comma : (xs ys rest : List ℕ) → (xs ++ (b',' ∷ ys)) ++ rest ≡ xs ++ (b',' ∷ (ys ++ rest))
append_comma [] ys rest = refl
append_comma (x ∷ xs) ys rest = ap (λ ts. x ∷ ts) (append_comma xs ys rest)

-- A field, quoted where it has to be, is read back whatever follows it.
read_field :
    (f rest : List ℕ)
    → IsRest rest
    → read_csv_from at_start (escape_field f ++ rest) ≡ open_text f (read_csv_from in_plain rest)
unfolding escape_field read_csv_from
read_field f rest r = elim (Bool-cases (any is_special f)) [
  | inl e ↦
      let special = special-double_quotes f in
      let quoted = read_quoted f rest r in
      let assoc = append_quote (double_quotes f) rest in rw (special ∙ e) (rw assoc quoted)
  | inr e ↦
      let special = special-double_quotes f in
      let plain = double_quotes-plain f e in
      let read = read_plain_start f rest r e in rw (special ∙ e) (rw plain read)
]

open_text-first :
    (f : List ℕ) (fs : List (List ℕ)) (rows : List (List (List ℕ)))
    → open_text f (([] ∷ fs) ∷ rows) ≡ (f ∷ fs) ∷ rows
open_text-first [] fs rows = refl
open_text-first (c ∷ cs) fs rows = ap (open_unit c) (open_text-first cs fs rows)

-- A row is read back before what is read of the rest.
read_row :
    (f : List ℕ) (fs : List (List ℕ)) (rest : List ℕ) (rows : List (List (List ℕ)))
    → IsRest rest
    → read_csv_from in_plain rest ≡ ([] ∷ []) ∷ rows
    → read_csv_from at_start (csv_row (f ∷ fs) ++ rest) ≡ (f ∷ fs) ∷ rows
unfolding csv_row join read_csv_from
read_row f [] rest rows r e = read_field f rest r ∙ ap (open_text f) e ∙ open_text-first f [] rows
read_row f (g ∷ gs) rest rows r e =
    let fields = csv_row (g ∷ gs) in
    ap (read_csv_from at_start) (append_comma (escape_field f) fields rest)
    ∙ read_field f (b',' ∷ (fields ++ rest)) refl
    ∙ ap (λ x. open_text f (open_field x)) (read_row g gs rest rows r e)
    ∙ open_text-first f (g ∷ gs) rows

append_nil : (xs : List ℕ) → xs ++ [] ≡ xs
append_nil [] = refl
append_nil (x ∷ xs) = ap (λ ts. x ∷ ts) (append_nil xs)

abbrev pub is_filled : List (List ℕ) → Bool
is_filled [] = false
is_filled (f ∷ fs) = true

read_rows :
    (row : List (List ℕ)) (rows : List (List (List ℕ)))
    → every is_filled (row ∷ rows) ≡ true
    → read_csv_from at_start (csv (row ∷ rows)) ≡ row ∷ rows
unfolding csv join read_csv_from
read_rows [] rows h = absurd (cc)
read_rows (f ∷ fs) [] h =
    ap (read_csv_from at_start) (sym (append_nil (csv_row (f ∷ fs)))) ∙ read_row f fs [] [] tt refl
read_rows (f ∷ fs) (next ∷ rows) h =
    let more = read_rows next rows (ground (arith, h)) in
    read_row f fs (10 ∷ csv (next ∷ rows)) (next ∷ rows) refl (ap open_row more)

abbrev pub is_there_row : List (List (List ℕ)) → Bool
is_there_row [] = false
is_there_row (r ∷ rs) = true

-- A table with a row, of which every row has a field, is read back as it was written, whatever
-- quotes, commas and line ends its fields hold.
pub read_csv-csv :
    (rows : List (List (List ℕ)))
    → is_there_row rows ≡ true
    → every is_filled rows ≡ true
    → read_csv (csv rows) ≡ rows
unfolding read_csv
read_csv-csv [] h k = absurd (cc)
read_csv-csv (row ∷ rows) h k = read_rows row rows k

every-filled :
    (iso : ℕ → List ℕ) (profile : CheckProfile) (runs : List RunReportSummary)
    → every is_filled (map (csv_run iso profile) runs) ≡ true
unfolding csv_run
every-filled iso profile [] = refl
every-filled iso profile (r ∷ rs) = every-filled iso profile rs

-- The report that is exported reads back as its header and one row for each run, with the fields as they
-- were before quoting.
pub read_csv-build_check_profile_report_csv :
    (iso : ℕ → List ℕ) (profile : CheckProfile) (runs : List RunReportSummary)
    → read_csv (build_check_profile_report_csv iso profile runs) ≡ csv_rows iso profile runs
unfolding build_check_profile_report_csv csv_rows
read_csv-build_check_profile_report_csv iso profile runs =
    read_csv-csv (csv_header ∷ map (csv_run iso profile) runs) refl (every-filled iso profile runs)
