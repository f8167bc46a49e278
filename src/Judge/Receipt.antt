-- ===== src/Judge/Receipt.antt =====
-- app/services/judge.py: `judge_evaluation_receipt`, and the evidence entry of the judge node.
use steh_v1_0_0_rc.Base.{ℕ, String, Option, none, some, false}
use steh_v1_0_0_rc.Json.{Json, null, bool, num, str, instant, obj, end, field, Fields}
use steh_v1_0_0_rc.Models.Judge.{JudgeEvaluationArtifact, JudgeEvaluationStatus, JudgeVerdict}

abbrev pub status_text : JudgeEvaluationStatus → String
status_text JudgeEvaluationStatus.completed = "COMPLETED"
status_text JudgeEvaluationStatus.skipped = "SKIPPED"
status_text JudgeEvaluationStatus.unavailable = "UNAVAILABLE"

abbrev pub verdict_text : JudgeVerdict → String
verdict_text JudgeVerdict.pass = "PASS"
verdict_text JudgeVerdict.concerns = "CONCERNS"
verdict_text JudgeVerdict.fail = "FAIL"
verdict_text JudgeVerdict.not_evaluated = "NOT_EVALUATED"

abbrev pub optional_score : Option ℕ → Json
optional_score none = null
optional_score (some n) = num n

abbrev pub optional_text : Option String → Json
optional_text none = null
optional_text (some s) = str s

unfoldable pub judge_evaluation_receipt : JudgeEvaluationArtifact → Fields
judge_evaluation_receipt e = field "schema_version" (str "1.0") (
    field "rubric_version" (str e.rubric_version) (
      field "rubric_sha256" (str e.rubric_sha256) (
        field "status" (str (status_text e.status)) (
          field "verdict" (str (verdict_text e.verdict)) (
            field "overall_score" (optional_score e.overall_score) (
              field "input_sha256" (str e.input_sha256) (
                field "authoritative" (bool false) (
                  field "evaluated_at" (instant e.evaluated_at)
                    (field "error_type" (optional_text e.error_type) end)))))))))

unfoldable pub receipt_json : JudgeEvaluationArtifact → Json
unfolding judge_evaluation_receipt
receipt_json e = obj (field "type" (str "judge_evaluation_receipt") (judge_evaluation_receipt e))
