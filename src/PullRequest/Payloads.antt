-- ===== src/PullRequest/Payloads.antt =====
-- The texts and audit payloads of app/services/pull_request_reviews.py.
use steh_v1_0_0_rc.Base.{String, take, length, concat, text_of, decimal, ◌++◌}
use steh_v1_0_0_rc.Json.{Json, bool, num, str, instant, obj, end, field}
use steh_v1_0_0_rc.Models.Context.{Text}
use steh_v1_0_0_rc.Models.PullRequest.{
  GitHubPullRequestSnapshot, GitHubPullRequestReceipt, PullRequestState, PullRequestRisk,
  PullRequestRecommendation, PullRequestReviewArtifact,
}
use steh_v1_0_0_rc.Context.Sanitize.{codes}

abbrev pub state_text : PullRequestState → String
state_text PullRequestState.opened = "open"
state_text PullRequestState.closed = "closed"

abbrev pub risk_text : PullRequestRisk → String
risk_text PullRequestRisk.low = "LOW"
risk_text PullRequestRisk.medium = "MEDIUM"
risk_text PullRequestRisk.high = "HIGH"
risk_text PullRequestRisk.critical = "CRITICAL"

abbrev pub recommendation_text : PullRequestRecommendation → String
recommendation_text PullRequestRecommendation.ready_for_human_review = "READY_FOR_HUMAN_REVIEW"
recommendation_text PullRequestRecommendation.changes_required = "CHANGES_REQUIRED"
recommendation_text PullRequestRecommendation.block = "BLOCK"

-- `github_pull_request_receipt(pull_request).model_dump(mode="json")`
unfoldable pub dump_receipt : GitHubPullRequestReceipt → Json
dump_receipt r = obj (
    field "repository" (str r.repository) (
      field "pull_number" (num r.pull_number) (
        field "state" (str (state_text r.state)) (
          field "pull_request_url" (str r.pull_request_url) (
            field "updated_at" (instant r.updated_at) (
              field "base_ref" (str (text_of r.base_ref)) (
                field "base_sha" (str r.base_sha) (
                  field "head_ref" (str (text_of r.head_ref)) (
                    field "head_sha" (str r.head_sha) (
                      field "draft" (bool r.draft) (
                        field "merged" (bool r.merged) (
                          field "changed_files" (num r.changed_files) (
                            field "fetched_files" (num r.fetched_files) (
                              field "additions" (num r.additions) (
                                field "deletions" (num r.deletions) (
                                  field "content_sha256" (str r.content_sha256) (
                                    field "redacted" (bool r.redacted) (
                                      field "suspicious_instruction" (bool r.suspicious_instruction)
                                        (field "truncated" (bool r.truncated) end)))))))))))))))))))

unfoldable pub request_text : GitHubPullRequestSnapshot → Text
request_text pr = take 10000 (
    codes (
      concat "Review GitHub pull request "
        (concat pr.repository (concat "#" (concat (decimal pr.pull_number) ": "))))
    ++ pr.title)

-- the payload of the event GITHUB_PULL_REQUEST_REVIEWED
unfoldable pub reviewed_payload : PullRequestReviewArtifact → Json
reviewed_payload review = obj (
    field "risk_level" (str (risk_text review.risk_level)) (
      field "recommendation" (str (recommendation_text review.recommendation)) (
        field "finding_count" (num (length review.findings)) (
          field "source_content_sha256" (str review.source_content_sha256) (
            field "context_bundle_sha256" (str review.context_bundle_sha256)
              (field "requires_human_review" (bool review.requires_human_review) end))))))
