-- ===== src/Tests/Issues.antt =====
-- An issue from its snapshot to a failed analysis, in app/services/github_issues.py and
-- app/agents/github_issue_analysis.py.
use steh_v1_0_0_rc.Base.{◌≡◌, refl, false, none, some, [], ◌∷◌, Result, ok, err, value_error}
use steh_v1_0_0_rc.Json.{num}
use steh_v1_0_0_rc.Models.Task.{TaskStatus}
use steh_v1_0_0_rc.Models.Issue.{IssueState, FetchedGitHubIssue, GitHubIssueSnapshot}
use steh_v1_0_0_rc.Db.{TaskRecord, Session, find_task, pure, raise}
use steh_v1_0_0_rc.Db.Keeps.{pure-Keeps, raise-Keeps}
use steh_v1_0_0_rc.Audit.{execute}
use steh_v1_0_0_rc.Context.Sanitize.{
  codes, sanitize_context_text, normalize, redact, text_eq, starts_with, contains_text, strip,
  strip_left, is_space, replace_cr, replace_crlf,
}
use steh_v1_0_0_rc.Tasks.Invoke.{Graph}
use steh_v1_0_0_rc.Tasks.Records.{Ids}
use steh_v1_0_0_rc.Tasks.Lasting.{Leaves}
use steh_v1_0_0_rc.Issue.Sanitize.{sanitize_github_issue}
use steh_v1_0_0_rc.Issue.Analysis.{analyse, run_stub}
use steh_v1_0_0_rc.Issue.Service.{Codec, run_github_issue_analysis}
use steh_v1_0_0_rc.Issue.Outcome.{failed_analysis_is_recorded}
use steh_v1_0_0_rc.Tests.Data.{no_tables, new_session}
use steh_v1_0_0_rc.Tests.Context.{plain}
use steh_v1_0_0_rc.Tests.Services.{waiting_task}
use steh_v1_0_0_rc.Tests.Reviews.{settings, no_receipt}

abbrev fetched : FetchedGitHubIssue
fetched = record {
  repository = "o/r";
  issue_number = 5;
  title = codes "Bug";
  body = codes "It fails";
  state = IssueState.opened;
  labels = codes "bug" ∷ codes " " ∷ [];
  author = codes "ana";
  issue_url = "u";
  updated_at = 4;
}

-- what stands for a snapshot where none was returned
abbrev nothing : GitHubIssueSnapshot
nothing = record {
  repository = "";
  issue_number = 0;
  title = [];
  body = [];
  state = IssueState.closed;
  labels = [];
  author = [];
  issue_url = "";
  updated_at = 0;
  content_sha256 = "";
  redacted = false;
  suspicious_instruction = false;
  truncated = false;
}

abbrev taken : Result GitHubIssueSnapshot → GitHubIssueSnapshot
taken (ok s) = s
taken (err e) = nothing

abbrev bounded : GitHubIssueSnapshot
bounded = taken (sanitize_github_issue plain (λ c. c.title) fetched 4)

sanitizes :
    (sanitize_github_issue plain (λ c. c.title) fetched 4 ≡ ok bounded)
    × (bounded.body ≡ codes "It f")
    × (bounded.labels ≡ codes "bug" ∷ [])
unfolding sanitize_github_issue sanitize_context_text normalize redact text_eq starts_with
    contains_text strip strip_left is_space replace_cr replace_crlf
sanitizes = (refl, refl, refl)

analyses : analyse plain none bounded ≡ ok (run_stub plain bounded)
unfolding analyse
analyses = refl

abbrev pub codec : Codec
codec = record {
  content = λ c. c.title;
  context = λ c. c.title;
  isoformat = λ n. "2026";
  analysis = λ a. codes "analysis";
  dump_analysis = λ a. num 0;
  validate_analysis = λ j. err value_error;
}

-- A graph without checkpoints that fails.
abbrev broken : Graph
broken = record {
  get_state = pure (record { values = none; has_interrupts = false; has_next = false });
  invoke = λ start. raise value_error;
}

broken-Leaves : Leaves 1 broken
broken-Leaves = record { reading = pure-Keeps _; running = λ start. raise-Keeps value_error }

abbrev issue_task : TaskRecord
issue_task = record waiting_task { status = TaskStatus.queued; source_issue = some nothing }

abbrev with_issue : Session
with_issue = record new_session {
  committed = record no_tables { tasks = issue_task ∷ [] };
  pending = record no_tables { tasks = issue_task ∷ [] };
}

abbrev ids : Ids
ids = record { text = λ n. "t"; read = λ value. some value }

abbrev after : Session
after = (run_github_issue_analysis plain codec settings none no_receipt ids broken 1 1 with_issue).1

analysis_raises :
    run_github_issue_analysis plain codec settings none no_receipt ids broken 1 1 with_issue
    ≡ (err value_error, after)
unfolding run_github_issue_analysis execute analyse
analysis_raises = refl

failed_analysis_is_recorded_example :
    (row : TaskRecord) × (find_task 1 after.committed ≡ some row) × (row.status ≡ TaskStatus.failed)
failed_analysis_is_recorded_example =
    failed_analysis_is_recorded plain codec settings none no_receipt ids broken 1 1 with_issue
      broken-Leaves refl refl refl analysis_raises
