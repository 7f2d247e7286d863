-- ===== src/Report/Csv.antt =====
-- buildCheckProfileReportCsv of packages/report-core/src/index.ts. Texts are lists of UTF-16 units.
pub mod Reader
pub mod RoundTrip
use webperf_selfhosted.Base.{
  ℕ, zero, suc, ◌+◌, ◌/◌, ◌%◌, String, Bool, true, false, ◌||◌, Option, none, some, List, [], ◌∷◌,
  ◌++◌, map, ltb, ◌==◌, any, if◌then◌else◌, codes,
}
use webperf_selfhosted.Report.Types.{RunTrigger, MonitorStatus, MonitorType, MonitorEvaluation}
use webperf_selfhosted.Report.Monitor.{CheckProfile, RunReportSummary}

-- `value.replaceAll('"', '""')`
unfoldable pub double_quotes : List ℕ → List ℕ
double_quotes [] = []
double_quotes (c ∷ cs) = if c == b'"' then b'"' ∷ b'"' ∷ double_quotes cs else c ∷ double_quotes cs

-- `/[",\n]/`
abbrev pub is_special : ℕ → Bool
is_special c = c == b'"' || c == b',' || c == 10

unfoldable pub escape_field : List ℕ → List ℕ
unfolding double_quotes
escape_field value =
    let escaped = double_quotes value in
    if any is_special escaped then b'"' ∷ escaped ++ b'"' ∷ [] else escaped

-- `join(separator)`
unfoldable pub join : ℕ → List (List ℕ) → List ℕ
join separator [] = []
join separator (x ∷ []) = x
join separator (x ∷ y ∷ ys) = x ++ separator ∷ join separator (y ∷ ys)

unfoldable pub csv_row : List (List ℕ) → List ℕ
unfolding escape_field join
csv_row row = join b',' (map escape_field row)

unfoldable pub csv : List (List (List ℕ)) → List ℕ
unfolding csv_row join
csv rows = join 10 (map csv_row rows)

-- `n.toString()`, where `fuel` is `n`.
unfoldable pub digits : ℕ → ℕ → List ℕ
digits zero n = (b'0' + n) ∷ []
digits (suc fuel) n =
    let rest = digits fuel (n / 10) in
    if ltb n 10 then (b'0' + n) ∷ [] else rest ++ (b'0' + n % 10) ∷ []

abbrev pub number_text : ℕ → List ℕ
number_text n = digits n n

abbrev pub bool_text : Bool → List ℕ
bool_text true = codes "true"
bool_text false = codes "false"

abbrev pub trigger_text : RunTrigger → List ℕ
trigger_text RunTrigger.manual = codes "manual"
trigger_text RunTrigger.schedule = codes "schedule"

abbrev pub status_text : MonitorStatus → List ℕ
status_text MonitorStatus.healthy = codes "healthy"
status_text MonitorStatus.warning = codes "warning"
status_text MonitorStatus.failed = codes "failed"

abbrev pub monitor_type_text : MonitorType → List ℕ
monitor_type_text MonitorType.latency = codes "latency"
monitor_type_text MonitorType.uptime = codes "uptime"

abbrev pub csv_header : List (List ℕ)
csv_header =
    codes "profile_id"
    ∷ codes "profile_name"
    ∷ codes "run_id"
    ∷ codes "created_at"
    ∷ codes "trigger"
    ∷ codes "route_count"
    ∷ codes "job_count"
    ∷ codes "status"
    ∷ codes "monitor_type"
    ∷ codes "failed_checks"
    ∷ codes "threshold_breached"
    ∷ codes "regression_detected"
    ∷ codes "baseline_pinned"
    ∷ []

-- The fields of an evaluation that may be missing.
abbrev pub monitor_type_or : Option MonitorEvaluation → List ℕ
monitor_type_or none = []
monitor_type_or (some e) = monitor_type_text e.monitor_type

abbrev pub failed_checks_or : Option MonitorEvaluation → List ℕ
failed_checks_or none = codes "0"
failed_checks_or (some e) = number_text e.failed_checks

abbrev pub threshold_breached_or : Option MonitorEvaluation → Bool
threshold_breached_or none = false
threshold_breached_or (some e) = e.threshold_breached

abbrev pub regression_detected_or : Option MonitorEvaluation → Bool
regression_detected_or none = false
regression_detected_or (some e) = e.regression_detected

-- `iso` is the text of a timestamp, which the run holds.
module _ (iso : ℕ → List ℕ) where
  unfoldable pub csv_run : CheckProfile → RunReportSummary → List (List ℕ)
  unfolding digits
  csv_run profile run =
      codes profile.id
      ∷ codes profile.name
      ∷ codes run.run_id
      ∷ iso run.created_at
      ∷ trigger_text run.trigger
      ∷ number_text run.route_count
      ∷ number_text run.job_count
      ∷ status_text run.status
      ∷ monitor_type_or run.evaluation
      ∷ failed_checks_or run.evaluation
      ∷ bool_text (threshold_breached_or run.evaluation)
      ∷ bool_text (regression_detected_or run.evaluation)
      ∷ bool_text run.baseline_pinned
      ∷ []

  unfoldable pub csv_rows : CheckProfile → List RunReportSummary → List (List (List ℕ))
  unfolding csv_run
  csv_rows profile runs = csv_header ∷ map (csv_run profile) runs

  unfoldable pub build_check_profile_report_csv : CheckProfile → List RunReportSummary → List ℕ
  unfolding csv csv_rows
  build_check_profile_report_csv profile runs = csv (csv_rows profile runs)
