-- ===== src/Issue/Payloads.antt =====
-- The texts and audit payloads of app/services/github_issues.py.
use steh_v1_0_0_rc.Base.{String, List, [], ◌∷◌, ◌++◌, map, take, concat, text_of, decimal}
use steh_v1_0_0_rc.Json.{Json, bool, num, str, instant, arr, obj, end, field, of_list}
use steh_v1_0_0_rc.Models.Context.{Text}
use steh_v1_0_0_rc.Models.Issue.{
  IssueState, GitHubIssueReceipt, IssueKind, IssuePriority, IssueRecommendation,
  IssueAnalysisArtifact,
}
use steh_v1_0_0_rc.Context.Sanitize.{codes}

abbrev pub state_text : IssueState → String
state_text IssueState.opened = "open"
state_text IssueState.closed = "closed"

abbrev pub kind_text : IssueKind → String
kind_text IssueKind.bug = "BUG"
kind_text IssueKind.feature = "FEATURE"
kind_text IssueKind.security = "SECURITY"
kind_text IssueKind.documentation = "DOCUMENTATION"
kind_text IssueKind.maintenance = "MAINTENANCE"
kind_text IssueKind.unknown = "UNKNOWN"

abbrev pub priority_text : IssuePriority → String
priority_text IssuePriority.low = "LOW"
priority_text IssuePriority.medium = "MEDIUM"
priority_text IssuePriority.high = "HIGH"
priority_text IssuePriority.critical = "CRITICAL"

abbrev pub recommendation_text : IssueRecommendation → String
recommendation_text IssueRecommendation.proceed = "PROCEED"
recommendation_text IssueRecommendation.clarify = "CLARIFY"
recommendation_text IssueRecommendation.block = "BLOCK"

-- `github_issue_receipt(issue).model_dump(mode="json")`
unfoldable pub dump_receipt : GitHubIssueReceipt → Json
dump_receipt r = obj (
    field "repository" (str r.repository) (
      field "issue_number" (num r.issue_number) (
        field "state" (str (state_text r.state)) (
          field "labels" (arr (of_list (map (λ label. str (text_of label)) r.labels))) (
            field "issue_url" (str r.issue_url) (
              field "updated_at" (instant r.updated_at) (
                field "content_sha256" (str r.content_sha256) (
                  field "redacted" (bool r.redacted) (
                    field "suspicious_instruction" (bool r.suspicious_instruction)
                      (field "truncated" (bool r.truncated) end))))))))))

-- the payload of the event GITHUB_ISSUE_ANALYZED
unfoldable pub analysed_payload : IssueAnalysisArtifact → Json
analysed_payload analysis = obj (
    field "issue_kind" (str (kind_text analysis.issue_kind)) (
      field "priority" (str (priority_text analysis.priority)) (
        field "recommendation" (str (recommendation_text analysis.recommendation))
          (field "source_content_sha256" (str analysis.source_content_sha256) end))))

-- `"\n".join(f"- {item}" for item in items)`
unfoldable pub bullets : List Text → Text
bullets [] = []
bullets (item ∷ []) = codes "- " ++ item
bullets (item ∷ next ∷ items) = (codes "- " ++ item) ++ (codes "\n" ++ bullets (next ∷ items))

-- `_task_request`
unfoldable pub task_request : IssueAnalysisArtifact → Text
unfolding bullets
task_request analysis = take 10000 (
    codes (
      concat "Implement GitHub issue "
        (concat analysis.repository (concat "#" (concat (decimal analysis.issue_number) ": "))))
    ++ (analysis.summary
        ++ (codes "\n\nProblem statement:\n"
            ++ (analysis.problem_statement
                ++ (codes "\n\nAcceptance criteria:\n" ++ bullets analysis.acceptance_criteria)))))
