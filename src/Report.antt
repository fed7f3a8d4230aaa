-- ===== src/Report.antt =====
-- internal/report/report.go: the check that shows a job run on a provider.
use forgelet.Prelude.{Option, none, Text, text, ◌++◌, is_empty, if◌then◌else◌, ◌⊎◌, inl, inr}
use forgelet.Run.JobStatus.{JobRunStatus}
use forgelet.Run.Records.{RunId, JobRunId, Time, JobRunRecord}

pub data CheckStatus : Type 0 where
  queued in_progress completed : CheckStatus

-- `undecided` is the empty string, the conclusion of a check that is not completed.
pub data CheckConclusion : Type 0 where
  undecided success failure cancelled skipped : CheckConclusion

pub record Check : Type 0 where
  pub run_id : RunId
  pub job_run_id : JobRunId
  pub name : Text
  pub external_id : Text
  pub details_url : Text
  pub status : CheckStatus
  pub conclusion : CheckConclusion
  pub started_at : Option Time
  pub completed_at : Option Time

pub data ReportError : Type 0 where
  empty_job_key : JobRunId → ReportError
  unmapped_status : JobRunStatus → ReportError

-- The check before the `switch` over the status, as one that is queued.
unfoldable pub open_check : JobRunRecord → Text → Check
open_check job base = record {
  run_id = job.run_id;
  job_run_id = job.id;
  name = job.job_key;
  external_id = job.id;
  details_url = base ++ text "/runs/" ++ job.run_id ++ text "/jobs/" ++ job.job_key;
  status = queued;
  conclusion = undecided;
  started_at = job.started_at;
  completed_at = none;
}

abbrev pub completed_as : CheckConclusion → JobRunRecord → Check → Check
completed_as c job check = record check {
  status = completed;
  conclusion = c;
  completed_at = job.finished_at;
}

unfoldable pub map_job_run : JobRunRecord → Text → Check ⊎ ReportError
unfolding open_check
map_job_run job base =
    let c = open_check job base in
    if is_empty job.job_key then inr (empty_job_key job.id) else elim job.status [
      | JobRunStatus.queued ↦ inl c
      | JobRunStatus.dispatched ↦ inl (record c { status = in_progress })
      | JobRunStatus.running ↦ inl (record c { status = in_progress })
      | JobRunStatus.succeeded ↦ inl (completed_as success job c)
      | JobRunStatus.failed ↦ inl (completed_as failure job c)
      | JobRunStatus.cancelled ↦ inl (completed_as cancelled job c)
      | JobRunStatus.skipped ↦ inl (record c { status = completed; conclusion = skipped })
      | JobRunStatus.unset ↦ inr (unmapped_status JobRunStatus.unset)
    ]
