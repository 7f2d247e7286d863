-- ===== src/Executor/Attempt/Reports.antt =====
-- What an attempt reports of the job.
use webperf_selfhosted.Executor.Attempt.{calls_after}
use webperf_selfhosted.Base.{if◌then◌else◌}
use webperf_selfhosted.Base.{
  ◌≡◌, Bool, true, false, not, ◌&&◌, Option, none, some, count, arith, All,
}
use webperf_selfhosted.Executor.Attempt.Failure.{
  HandlerError, execution_failure, normalize_execution_failure_bounds, IsBounded,
}
use webperf_selfhosted.Executor.Attempt.{
  AbortReason, Work, settled, run_handler_with_timeout, aborted_now, Completion, completed,
  rejected_409, completion_failed, Start, started, start_refused, Course, ClientCall, complete,
  fail, report_failure, report_work, process_execution_job, read_work_abort_failure,
}

abbrev pub is_complete : ClientCall → Bool
is_complete complete = true
is_complete _ = false

abbrev pub is_fail : ClientCall → Bool
is_fail (fail f) = true
is_fail _ = false

-- The handler is done without an error and the signal has not aborted.
abbrev pub is_done : Work → Bool
is_done (settled none none) = true
is_done _ = false

abbrev pub is_in_time : Start → Bool
is_in_time (started b) = b
is_in_time start_refused = false

abbrev pub is_completion_failure : Completion → Bool
is_completion_failure (completion_failed e) = true
is_completion_failure _ = false

-- An attempt completes the job exactly if it started in time and its handler was done without an
-- error or an abort, and then once; it fails the job, once, exactly if not, or if the completion failed
-- for another reason than a lost lease. So every attempt reports on its job.
pub process_execution_job_reports :
    (course : Course)
    → (count is_complete (process_execution_job course)
        ≡ (if is_in_time course.start && is_done course.work then 1 else 0))
      × (count is_fail (process_execution_job course) ≡ (
          if is_in_time course.start
            && is_done course.work
            && not (is_completion_failure course.completion)
          then 0
          else 1))
unfolding process_execution_job run_handler_with_timeout
process_execution_job_reports course = ground arith

abbrev pub IsReported : ClientCall → Type 0
IsReported (fail f) = IsBounded f
IsReported _ = Unit

failure-IsReported : (e : HandlerError) → All IsReported (report_failure e)
failure-IsReported e = (normalize_execution_failure_bounds e, tt)

work-IsReported :
    (e : Option HandlerError) (a : Option AbortReason) (c : Completion)
    → All IsReported (report_work e a c)
work-IsReported (some e) a c = failure-IsReported e
work-IsReported none (some r) c = failure-IsReported (execution_failure (read_work_abort_failure r))
work-IsReported none none completed = (tt, tt)
work-IsReported none none rejected_409 = (tt, tt)
work-IsReported none none (completion_failed e) = (tt, failure-IsReported e)

-- Every failure that an attempt reports, whatever its handler threw, is one that the queue's
-- schema accepts.
pub process_execution_job_failures :
    (course : Course) → All IsReported (process_execution_job course)
unfolding process_execution_job
process_execution_job_failures course = (tt, after course.start)
  where
    after : (s : Start) → All IsReported (calls_after s course)
    after start_refused = (((omega arith), omega arith, omega arith, omega arith, omega arith), tt)
    after (started false) = ((omega arith, omega arith, omega arith, omega arith, omega arith), tt)
    after (started true) =
        work-IsReported (run_handler_with_timeout course.work) (aborted_now course.work)
          course.completion
