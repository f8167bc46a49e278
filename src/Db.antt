-- ===== src/Db.antt =====
-- app/db/models.py and the session that every service works through. A session holds the committed
-- tables and those with its own pending changes: `commit` publishes them, `rollback` drops them.
-- Ids are drawn from a counter (uuid4 does not repeat), and the n-th reading of the clock is
-- `clock n`, whatever function that is.
pub mod Keeps
pub mod Reaches
pub mod Rows
pub mod Insert
use steh_v1_0_0_rc.Base.{
  ℕ, suc, ◌≡◌, refl, String, Bool, Option, List, [], ◌∷◌, nat_eq, if◌then◌else◌, find?, Result, ok,
  err, Error,
}
use steh_v1_0_0_rc.Json.{Json}
use steh_v1_0_0_rc.Models.Task.{TaskStatus, ReworkDecision}
use steh_v1_0_0_rc.Models.Review.{HumanReviewArtifact, HumanReviewResume}
use steh_v1_0_0_rc.Models.Context.{Text, ContextBundle}
use steh_v1_0_0_rc.Models.Issue.{GitHubIssueSnapshot, IssueAnalysisArtifact}
use steh_v1_0_0_rc.Models.PullRequest.{GitHubPullRequestSnapshot, PullRequestReviewArtifact}
use steh_v1_0_0_rc.Models.Judge.{JudgeEvaluationArtifact}

pub record TaskRecord : Type 0 where
  pub task_id : ℕ
  pub trace_id : ℕ
  pub request : Text
  pub status : TaskStatus
  pub context_bundle : Option ContextBundle
  pub source_issue : Option GitHubIssueSnapshot
  pub issue_analysis : Option IssueAnalysisArtifact
  pub source_pull_request : Option GitHubPullRequestSnapshot
  pub pull_request_review : Option PullRequestReviewArtifact
  pub requirements : Option Json
  pub specification : Option Json
  pub architecture : Option Json
  pub security_review : Option Json
  pub risk_level : Option Json
  pub implementation : Option Json
  pub test_plan : Option Json
  pub validation : Option Json
  pub rework_count : ℕ
  pub external_scan : Option Json
  pub rework_decision : Option ReworkDecision
  pub human_review : Option HumanReviewArtifact
  pub judge_evaluation : Option JudgeEvaluationArtifact
  pub created_at : ℕ
  pub updated_at : ℕ

-- app/services/jobs.py
pub data JobKind : Type 0 where
  execute_task analyze_github_issue review_pull_request resume_human_review : JobKind

pub data JobStatus : Type 0 where
  queued running succeeded failed : JobStatus

-- `payload` holds the decision of a resume job, and nothing for the other kinds.
pub record TaskJobRecord : Type 0 where
  pub job_id : ℕ
  pub task_id : ℕ
  pub kind : JobKind
  pub payload : Option HumanReviewResume
  pub status : JobStatus
  pub attempts : ℕ
  pub locked_by : Option String
  pub lease_expires_at : Option ℕ
  pub last_error : Option String
  pub created_at : ℕ
  pub started_at : Option ℕ
  pub finished_at : Option ℕ

pub data RunStatus : Type 0 where
  started succeeded failed abandoned : RunStatus

pub record AgentRunRecord : Type 0 where
  pub run_id : ℕ
  pub task_id : ℕ
  pub trace_id : ℕ
  pub agent_name : String
  pub status : RunStatus
  pub result : Option Json
  pub findings : List Json
  pub evidence : List Json
  pub confidence : ℕ
  pub started_at : ℕ
  pub completed_at : Option ℕ

pub record AuditEventRecord : Type 0 where
  pub event_id : ℕ
  pub task_id : ℕ
  pub trace_id : ℕ
  pub event_type : String
  pub actor : String
  pub payload : Json
  pub created_at : ℕ

pub record SecurityFindingRecord : Type 0 where
  pub finding_id : Json
  pub task_id : ℕ
  pub trace_id : ℕ
  pub title : Json
  pub description : Json
  pub severity : Json
  pub category : Json
  pub affected_component : Json
  pub threat : Json
  pub recommendation : Json
  pub evidence : Json
  pub status : Json

pub record Tables : Type 0 where
  pub tasks : List TaskRecord
  pub jobs : List TaskJobRecord
  pub agent_runs : List AgentRunRecord
  pub audit_events : List AuditEventRecord
  pub security_findings : List SecurityFindingRecord

pub record Session : Type 0 where
  pub committed : Tables
  pub pending : Tables
  pub clock : ℕ → ℕ
  pub readings : ℕ
  pub fresh : ℕ

-- An action on a session: what it wrote stays written after it has raised.
abbrev pub Exec {ℓ} : Type ℓ → Type ℓ
Exec A = Session → Result A × Session

abbrev pub then_do {ℓ κ} :
    {A : Type ℓ} {B : Type κ} → (A → Exec B) → Result A × Session → Result B × Session
then_do f (ok a, t) = f a t
then_do f (err e, t) = (err e, t)

abbrev pub or_else {ℓ} : {A : Type ℓ} → (Error → Exec A) → Result A × Session → Result A × Session
or_else f (ok a, t) = (ok a, t)
or_else f (err e, t) = f e t

infixl 5 ◌>>=◌ ◌>>◌
abbrev pub ◌>>=◌ {ℓ κ} : {A : Type ℓ} {B : Type κ} → Exec A → (A → Exec B) → Exec B
◌>>=◌ m f s = then_do f (m s)

abbrev pub ◌>>◌ {ℓ} : {B : Type ℓ} → Exec (Unit {0}) → Exec B → Exec B
m >> k = m >>= λ _. k

abbrev pub pure {ℓ} : {A : Type ℓ} → A → Exec A
pure a s = (ok a, s)

abbrev pub lift {ℓ} : {A : Type ℓ} → Result A → Exec A
lift r s = (r, s)

abbrev pub raise {ℓ} : {A : Type ℓ} → Error → Exec A
raise e s = (err e, s)

-- `try: m  except Exception as exc: handler(exc)`
abbrev pub catch {ℓ} : {A : Type ℓ} → Exec A → (Error → Exec A) → Exec A
catch m handler s = or_else handler (m s)

-- The result of an action as a value, for what follows a `try` on either path.
abbrev pub attempt {ℓ} : {A : Type ℓ} → Exec A → Exec (Result A)
attempt m s = let (r, t) = m s in (ok r, t)

abbrev pub modify : (Tables → Tables) → Exec (Unit {0})
modify f s = (ok tt, record s { pending = f s.pending })

abbrev pub gets {ℓ} : {A : Type ℓ} → (Tables → A) → Exec A
gets f s = (ok (f s.pending), s)

-- `db.commit()`
abbrev pub commit : Exec (Unit {0})
commit s = (ok tt, record s { committed = s.pending })

-- `db.rollback()`
abbrev pub rollback : Exec (Unit {0})
rollback s = (ok tt, record s { pending = s.committed })

-- `utc_now()`, `datetime.now(UTC)`
abbrev pub utc_now : Exec ℕ
utc_now s = (ok (s.clock s.readings), record s { readings = suc s.readings })

-- `uuid4()`
abbrev pub uuid4 : Exec ℕ
uuid4 s = (ok s.fresh, record s { fresh = suc s.fresh })

-- Write `f` over the rows that `p` selects.
abbrev pub update_where {ℓ} : {A : Type ℓ} → (A → Bool) → (A → A) → List A → List A
update_where p f [] = []
update_where p f (x ∷ xs) = (if p x then f x else x) ∷ update_where p f xs

-- `db.get(TaskRecord, task_id)`
abbrev pub find_task : ℕ → Tables → Option TaskRecord
find_task id t = find? (λ r. nat_eq r.task_id id) t.tasks

abbrev pub find_job : ℕ → Tables → Option TaskJobRecord
find_job id t = find? (λ j. nat_eq j.job_id id) t.jobs

abbrev pub update_task : ℕ → (TaskRecord → TaskRecord) → Tables → Tables
update_task id f t = record t { tasks = update_where (λ r. nat_eq r.task_id id) f t.tasks }

abbrev pub update_job : ℕ → (TaskJobRecord → TaskJobRecord) → Tables → Tables
update_job id f t = record t { jobs = update_where (λ j. nat_eq j.job_id id) f t.jobs }

-- What `>>=` has done when it returned.
bound {ℓ κ} :
    {A : Type ℓ} {B : Type κ} (f : A → Exec B) (p : Result A × Session) {b : B} {w : Session}
    → then_do f p ≡ (ok b, w)
    → (a : A) × (v : Session) × (p ≡ (ok a, v)) × (f a v ≡ (ok b, w))
bound f (ok a, v) h = (a, v, refl, h)
bound f (err e, v) h = cc

pub >>=-eq-ok {ℓ κ} :
    {A : Type ℓ} {B : Type κ} (m : Exec A) (f : A → Exec B) (s : Session) {b : B} {w : Session}
    → (m >>= f) s ≡ (ok b, w)
    → (a : A) × (v : Session) × (m s ≡ (ok a, v)) × (f a v ≡ (ok b, w))
>>=-eq-ok m f s h = bound f (m s) h
