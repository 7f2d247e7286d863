-- ===== src/Report/Csv/Reader.antt =====
-- A reader of comma-separated fields, as RFC 4180 describes them, with line feeds between the rows.
use webperf_selfhosted.Base.{ℕ, List, [], ◌∷◌, ◌==◌, if◌then◌else◌}

-- At the start of a field, in a plain field, in a quoted one, or after a quote in a quoted one.
pub data Mode : Type 0 where
  at_start in_plain in_quoted after_quote : Mode

-- The rows that are read, of which the first field of the first row is still open to the left.
abbrev pub open_unit : ℕ → List (List (List ℕ)) → List (List (List ℕ))
open_unit c [] = []
open_unit c ([] ∷ rows) = [] ∷ rows
open_unit c ((f ∷ fs) ∷ rows) = ((c ∷ f) ∷ fs) ∷ rows

abbrev pub open_field : List (List (List ℕ)) → List (List (List ℕ))
open_field [] = []
open_field (row ∷ rows) = ([] ∷ row) ∷ rows

abbrev pub open_row : List (List (List ℕ)) → List (List (List ℕ))
open_row rows = ([] ∷ []) ∷ rows

unfoldable pub read_csv_from : Mode → List ℕ → List (List (List ℕ))
read_csv_from mode [] = ([] ∷ []) ∷ []
read_csv_from at_start (c ∷ cs) =
    let starting = read_csv_from at_start cs in
    let plain = read_csv_from in_plain cs in
    let quoted = read_csv_from in_quoted cs in
    if c == b'"'
    then quoted
    else if c == b','
    then open_field starting
    else if c == 10
    then open_row starting
    else open_unit c plain
read_csv_from in_plain (c ∷ cs) =
    let starting = read_csv_from at_start cs in
    let plain = read_csv_from in_plain cs in
    if c == b','
    then open_field starting
    else if c == 10
    then open_row starting
    else open_unit c plain
read_csv_from in_quoted (c ∷ cs) =
    let quoted = read_csv_from in_quoted cs in
    let closing = read_csv_from after_quote cs in if c == b'"' then closing else open_unit c quoted
read_csv_from after_quote (c ∷ cs) =
    let starting = read_csv_from at_start cs in
    let plain = read_csv_from in_plain cs in
    let quoted = read_csv_from in_quoted cs in
    if c == b'"'
    then open_unit c quoted
    else if c == b','
    then open_field starting
    else if c == 10
    then open_row starting
    else open_unit c plain

unfoldable pub read_csv : List ℕ → List (List (List ℕ))
unfolding read_csv_from
read_csv text = read_csv_from at_start text
