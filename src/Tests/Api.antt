-- ===== src/Tests/Api.antt =====
-- Requests to the routes of app/api/routes/tasks.py.
use steh_v1_0_0_rc.Base.{
  ◌+◌, ◌≡◌, refl, String, true, none, some, List, [], ◌∷◌, ◌++◌, All, Result, ok, arith,
}
use steh_v1_0_0_rc.Json.{Json, num, str, obj, end, field, truthy, get, get_default}
use steh_v1_0_0_rc.Models.Task.{TaskStatus}
use steh_v1_0_0_rc.Models.Context.{Text}
use steh_v1_0_0_rc.Models.Issue.{IssueState}
use steh_v1_0_0_rc.Context.Sanitize.{codes, strip, strip_left, is_space, starts_with, text_eq}
use steh_v1_0_0_rc.Rework.{execution_policy, decide}
use steh_v1_0_0_rc.Db.{TaskRecord, Session, JobKind, find_task}
use steh_v1_0_0_rc.Audit.{record_event}
use steh_v1_0_0_rc.Jobs as Jobs
use steh_v1_0_0_rc.Context.Build.{new_engine}
use steh_v1_0_0_rc.Tasks.Accept.{accept_task, build_context_bundle}
use steh_v1_0_0_rc.Tasks.Review as Review
use steh_v1_0_0_rc.Tools.Scanners.{ScannerEvidence}
use steh_v1_0_0_rc.Auth.Principal.{bearer, has_role, roles_of, granted, reviewer}
use steh_v1_0_0_rc.GitHub.Issues.{IssueWorld, fetch_issue}
use steh_v1_0_0_rc.GitHub.PullRequests.{fetch}
use steh_v1_0_0_rc.GitHub.Http.{replied}
use steh_v1_0_0_rc.Api.Responses.{
  Answer, refused, answered, Rendering, Accepted, accepted, response_of, TaskResponse,
}
use steh_v1_0_0_rc.Api.Routes.{
  create_task, get_task, create_task_from_issue, review_github_pull_request, decide_human_review,
}
use steh_v1_0_0_rc.Api.ExternalValidation.{
  Validated, is_severe, finding_reasons, findings_reasons, reasons_of, status_after, store,
  conclude, external_validation,
}
use steh_v1_0_0_rc.Api.Clean.{IsClean}
use steh_v1_0_0_rc.Api.Completing.{IsCompletedBy, completed-IsClean, clean_scan_completes}
use steh_v1_0_0_rc.Api.Accepting.{Replies, issue_route_replies}
use steh_v1_0_0_rc.Api.Reviewing.{review_route_replies}
use steh_v1_0_0_rc.Api.Deciding.{one_authenticated_decision}
use steh_v1_0_0_rc.Tests.Context.{plain}
use steh_v1_0_0_rc.Tests.Data.{no_tables, new_session}
use steh_v1_0_0_rc.Tests.Services.{waiting_task, with_task, approval}
use steh_v1_0_0_rc.Tests.Auth as Login
use steh_v1_0_0_rc.Tests.GitHub as Client
use steh_v1_0_0_rc.Tests.Issues as Issues
use steh_v1_0_0_rc.Tests.Reviews as Reviews

abbrev rendering : Rendering
rendering = record { validate = λ name value. some value; show_id = λ id. "id" }

-- A task that a reviewer has rejected.
abbrev blocked_task : TaskRecord
blocked_task = record waiting_task {
  status = TaskStatus.blocked;
  implementation = some (obj (field "files" (num 1) end));
}

abbrev with_blocked : Session
with_blocked = record new_session {
  committed = record no_tables { tasks = blocked_task ∷ [] };
  pending = record no_tables { tasks = blocked_task ∷ [] };
}

abbrev evidence : List ScannerEvidence
evidence =
    (record {
      scanner = "trivy";
      success = true;
      exit_code = num 0;
      duration_ms = num 5;
      findings = obj (field "severity" (str "LOW") (field "rule_id" (str "CVE") end)) ∷ [];
      error = none;
    })
    ∷ []

abbrev show : Json → String
show value = "?"

minor : All IsClean evidence
unfolding get is_severe
minor = ((refl, ((str "LOW", refl, refl), tt)), tt)

clean_scan_completes_example :
    (stored : TaskRecord) × (find_task 1
        (external_validation show execution_policy (λ id. ok evidence) 1 with_blocked).1.committed
      ≡ some stored)
    × (stored.status ≡ TaskStatus.completed)
    × (stored.rework_count ≡ 0 + 1)
unfolding truthy
clean_scan_completes_example =
    clean_scan_completes show execution_policy (λ id. ok evidence) 1 with_blocked (omega arith) refl
      refl refl minor

scans :
    (v : Validated) × (external_validation show execution_policy (λ id. ok evidence) 1 with_blocked
      ≡ (
        ok (answered v),
        (external_validation show execution_policy (λ id. ok evidence) 1 with_blocked).1,
      ))
    × (v.status ≡ TaskStatus.completed)
unfolding external_validation conclude reasons_of findings_reasons finding_reasons is_severe get
    store record_event status_after truthy decide get_default
scans = (_, refl, refl)

completed-IsClean_example :
    (found : List ScannerEvidence) × (ok evidence ≡ ok found)
    × All IsClean found
    × IsCompletedBy found 1
        (external_validation show execution_policy (λ id. ok evidence) 1 with_blocked).1
completed-IsClean_example =
    completed-IsClean show execution_policy (λ id. ok evidence) 1 with_blocked scans.1 scans.2

-- It knows one issue.
abbrev issue_world : IssueWorld
issue_world = record {
  transport = λ request. replied 200 (some (0 ∷ []) ∷ []);
  loads = λ content. some (
      obj (
        field "user" (obj (field "login" (str "ana") end)) (
          field "title" (str "Crash") (
            field "state" (str "open") (
              field "html_url" (str "https://github.com/acme/app/issues/7")
                (field "updated_at" (num 5) end))))));
  show = λ value. value;
  text = λ name value. some (codes "text");
  url = λ value. some "https://github.com/acme/app/issues/7";
  time = λ value. some 5;
  state = λ value. some IssueState.opened;
  labels = λ value. some [];
}

issue_route_replies_example : Replies JobKind.analyze_github_issue new_session (
    create_task_from_issue plain Reviews.settings rendering Issues.codec
      (fetch_issue plain issue_world Client.issue_client Client.reference []).0
      new_session)
issue_route_replies_example =
    issue_route_replies plain Issues.codec Reviews.settings rendering new_session issue_world
      Client.issue_client Client.reference

review_route_replies_example : Replies JobKind.review_pull_request new_session (
    review_github_pull_request plain Reviews.settings rendering Reviews.codec
      (fetch plain Client.answering Client.client Client.reference []).0
      new_session)
review_route_replies_example =
    review_route_replies plain Reviews.codec Reviews.settings rendering new_session Client.answering
      Client.client Client.reference

abbrev decided : Result (Answer Accepted) × Session
decided =
    decide_human_review rendering
      (reviewer Login.decode Login.show Login.settings (some Login.header)) 1 approval with_task

accepts : (a : Accepted) × (decided ≡ (ok (answered a), decided.1))
unfolding decide_human_review reviewer starts_with text_eq strip strip_left is_space
    Review.claim_human_review Review.claim_found Review.claim_review Review.queue_resume
    Review.resume_of Review.resolve_review_outcome Review.dump_resume Jobs.new_job
    Jobs.record_job_queued Jobs.kind_name record_event accepted response_of
accepts = (_, refl)

one_authenticated_decision_example :
    ((token : Text) × (claims : Json) × (roles : List Json) × (some Login.header
        ≡ some (bearer ++ token))
      × (Login.decode (strip token) "secret" ("HS256" ∷ []) ≡ some claims)
      × (roles_of claims ≡ ok roles)
      × (has_role "steh_reviewer" roles ≡ true))
    × ((decide_human_review rendering (granted Login.ana) 1 approval decided.1).0
        ≡ ok (refused 409))
one_authenticated_decision_example =
    one_authenticated_decision rendering Login.decode Login.show Login.settings (some Login.header)
      1 approval with_task Login.ana approval refl accepts.1

shown :
    (r : TaskResponse) × ((get_task rendering 1 with_task).0 ≡ ok (answered r))
    × (response_of rendering waiting_task ≡ ok r)
unfolding get_task response_of
shown = (_, refl, refl)

not_shown : (get_task rendering 2 with_task).0 ≡ ok (refused 404)
unfolding get_task
not_shown = refl

-- The settings allow no source.
refuses :
    (create_task plain
      (record Reviews.settings { context_max_sources = 0 })
      rendering
      Reviews.payload
      new_session).0
    ≡ ok (refused 422)
unfolding create_task accept_task build_context_bundle new_engine
refuses = refl
