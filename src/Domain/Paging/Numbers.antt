-- ===== src/Domain/Paging/Numbers.antt =====
-- A number is read back from its decimal text.
use webperf_selfhosted.Base.{
  ℕ, zero, suc, ◌+◌, ◌-◌, ◌*◌, ◌/◌, ◌%◌, ◌≤◌, ◌≡◌, refl, ◌∙◌, ap, List, [], ◌∷◌, ◌++◌, ltb,
  Bool-cases, inl, inr, arith,
}
use webperf_selfhosted.Report.Csv.{digits, number_text}
use webperf_selfhosted.Domain.Paging.{parse_int}

parse_int-append :
    (value : ℕ) (text : List ℕ) (c : ℕ)
    → parse_int value (text ++ c ∷ []) ≡ parse_int value text * 10 + (c - b'0')
unfolding parse_int
parse_int-append value [] c = refl
parse_int-append value (d ∷ text) c = parse_int-append (value * 10 + (d - b'0')) text c

parse_int-digits : (fuel n : ℕ) → n ≤ fuel → parse_int 0 (digits fuel n) ≡ n
unfolding parse_int digits
parse_int-digits zero n h = omega arith
parse_int-digits (suc fuel) n h = elim (Bool-cases (ltb n 10)) [
  | inl e ↦ rw e (omega arith)
  | inr e ↦
      let above : 10 ≤ n = ground (arith, e) in
      let rest = parse_int-digits fuel (n / 10) (omega arith) in
      let read = parse_int-append 0 (digits fuel (n / 10)) (b'0' + n % 10) in
      let value : n / 10 * 10 + (b'0' + n % 10 - b'0') ≡ n = omega arith in
      rw e (read ∙ ap (λ v. v * 10 + (b'0' + n % 10 - b'0')) rest ∙ value)
]

pub parse_int-number_text : (n : ℕ) → parse_int 0 (number_text n) ≡ n
parse_int-number_text n = parse_int-digits n n (omega arith)
