-- ===== src/Tests/Export.antt =====
-- Runs of the export of packages/report-core/src/index.ts, and the theorems on it at sample data.
use webperf_selfhosted.Base.{ℕ, ◌≡◌, refl, none, true, List, [], ◌∷◌, codes}
use webperf_selfhosted.Report.Types.{RunTrigger, MonitorStatus}
use webperf_selfhosted.Report.Monitor.{CheckProfile, RunReportSummary}
use webperf_selfhosted.Report.Csv.{
  double_quotes, escape_field, join, csv_row, digits, csv_run, csv_rows,
  build_check_profile_report_csv,
}
use webperf_selfhosted.Report.Csv.Reader.{read_csv}
use webperf_selfhosted.Report.Csv.RoundTrip.{read_csv-build_check_profile_report_csv}

abbrev quoted_profile : CheckProfile
quoted_profile = record {
  id = "p1";
  name = "shop, \"eu\"";
  monitor_policy = none;
  baseline_run_id = none;
}

abbrev exported_run : RunReportSummary
exported_run = record {
  run_id = "r1";
  created_at = 1700;
  trigger = RunTrigger.schedule;
  route_count = 12;
  job_count = 3;
  status = MonitorStatus.healthy;
  evaluation = none;
  alert_deliveries = [];
  baseline_pinned = true;
}

abbrev a_time : ℕ → List ℕ
a_time t = codes "2024-01-01T00:00:00.000Z"

quoted_field : escape_field (codes "shop, \"eu\"") ≡ codes "\"shop, \"\"eu\"\"\""
unfolding escape_field double_quotes
quoted_field = refl

exported_fields :
    csv_row (csv_run a_time quoted_profile exported_run)
    ≡ codes
        "p1,\"shop, \"\"eu\"\"\",r1,2024-01-01T00:00:00.000Z,schedule,12,3,healthy,,0,false,false,true"
unfolding csv_row join escape_field double_quotes csv_run digits
exported_fields = refl

read_csv-build_check_profile_report_csv_example :
    read_csv (build_check_profile_report_csv a_time quoted_profile (exported_run ∷ []))
    ≡ csv_rows a_time quoted_profile (exported_run ∷ [])
read_csv-build_check_profile_report_csv_example =
    read_csv-build_check_profile_report_csv a_time quoted_profile (exported_run ∷ [])

abbrev quoted_table : List (List (List ℕ))
quoted_table = (codes "a\"b" ∷ codes "," ∷ []) ∷ ([] ∷ []) ∷ (codes "c" ∷ (10 ∷ []) ∷ []) ∷ []
