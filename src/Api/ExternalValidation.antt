-- ===== src/Api/ExternalValidation.antt =====
-- app/api/routes/tasks.py: `external_validation`, with app/services/external_validation.py. What the
-- scanners of a task's workspace return or raise is a parameter, and so is how Python prints a rule's
-- id that is no text.
use steh_v1_0_0_rc.Base.{
  ℕ, ◌+◌, String, Bool, false, ◌||◌, Option, none, some, List, [], ◌∷◌, ◌++◌, map, length,
  if◌then◌else◌, ◌==◌, concat, text_of, Result, ok, err, type_error, ◌>>=◌ as then_result,
}
use steh_v1_0_0_rc.Json.{
  Json, null, bool, num, str, arr, obj, end, field, get, get_default, truthy, of_list,
}
use steh_v1_0_0_rc.Models.Task.{TaskStatus, ReworkDecision}
use steh_v1_0_0_rc.Rework.{ReworkPolicy, decide}
use steh_v1_0_0_rc.Db.{
  TaskRecord, Exec, ◌>>=◌, ◌>>◌, pure, lift, gets, modify, commit, find_task, update_task,
}
use steh_v1_0_0_rc.Audit.{record_event}
use steh_v1_0_0_rc.Tasks.Records.{dump_rework}
use steh_v1_0_0_rc.Tools.Scanners.{ScannerEvidence}
use steh_v1_0_0_rc.Prompts.Parse.{text_value}
use steh_v1_0_0_rc.Api.Responses.{Answer, refused, answered}

-- `value in {"HIGH", "CRITICAL"}`: a list and a dict have no hash.
unfoldable pub is_severe : Json → Result Bool
is_severe (str s) = ok (s == "HIGH" || s == "CRITICAL")
is_severe (arr items) = err type_error
is_severe (obj fields) = err type_error
is_severe _ = ok false

-- the reason that a finding gives, if it is a severe one
unfoldable pub finding_reasons : (Json → String) → String → Json → Result (List String)
unfolding is_severe
finding_reasons show scanner finding = then_result (get finding "severity") (λ severity.
    then_result (is_severe severity) (λ severe.
      then_result (get_default finding "rule_id" (str "finding")) (λ rule_id.
        ok (if severe then concat scanner (concat ": " (text_value show rule_id)) ∷ [] else []))))

-- one round of the inner loop and the rest of it
unfoldable pub findings_reasons : (Json → String) → String → List Json → Result (List String)
unfolding finding_reasons
findings_reasons show scanner [] = ok []
findings_reasons show scanner (finding ∷ findings) =
    then_result (finding_reasons show scanner finding)
      (λ first. then_result (findings_reasons show scanner findings) (λ rest. ok (first ++ rest)))

-- The reasons for a rework that the evidence gives.
unfoldable pub reasons_of : (Json → String) → List ScannerEvidence → Result (List String)
unfolding findings_reasons
reasons_of show [] = ok []
reasons_of show (item ∷ items) =
    then_result (findings_reasons show item.scanner item.findings) (λ found.
      then_result (reasons_of show items) (λ rest.
        let failed : List String =
          if item.success then [] else concat item.scanner ": scanner execution failed" ∷ [] in
        ok (failed ++ (found ++ rest))))

-- `item.model_dump(mode="json")`
unfoldable pub dump_evidence : ScannerEvidence → Json
unfolding text_of
dump_evidence item = obj (
    field "scanner" (str item.scanner) (
      field "success" (bool item.success) (
        field "exit_code" item.exit_code (
          field "duration_ms" item.duration_ms (
            field "findings" (arr (of_list item.findings))
              (field "error" (elim item.error [ none ↦ null | some e ↦ str (text_of e) ]) end))))))

abbrev pub serialized : List ScannerEvidence → Json
serialized evidence = arr (of_list (map dump_evidence evidence))

-- the status after a decision
unfoldable pub status_after : ReworkDecision → TaskStatus
status_after decision =
    if decision.exhausted
    then TaskStatus.rework_exhausted
    else if decision.required
    then TaskStatus.rework_required
    else TaskStatus.completed

-- what the route writes to the task
unfoldable pub with_scan : List ScannerEvidence → ReworkDecision → TaskRecord → TaskRecord
unfolding dump_evidence status_after
with_scan evidence decision task = record task {
  external_scan = some (serialized evidence);
  rework_decision = some decision;
  rework_count = decision.attempt;
  status = status_after decision;
}

-- The answer of the route.
pub record Validated : Type 0 where
  pub task_id : ℕ
  pub status : TaskStatus
  pub external_scan : Json
  pub rework_decision : ReworkDecision

unfoldable pub event_payload : List ScannerEvidence → ReworkDecision → Json
unfolding dump_rework
event_payload evidence decision =
    obj
      (field "decision" (dump_rework decision) (field "scanner_count" (num (length evidence)) end))

abbrev pub is_implemented : Option Json → Bool
is_implemented none = false
is_implemented (some implementation) = truthy implementation

-- what follows the decision
unfoldable pub store :
    ℕ → TaskRecord → List ScannerEvidence → ReworkDecision → Exec (Answer Validated)
unfolding with_scan record_event event_payload
store task_id task evidence decision = do
  modify (update_task task_id (with_scan evidence decision))
  commit
  record_event task_id task.trace_id "EXTERNAL_VALIDATION_COMPLETED" "scanner_suite"
      (event_payload evidence decision)
  pure (
      answered (record {
        task_id = task_id;
        status = status_after decision;
        external_scan = serialized evidence;
        rework_decision = decision;
      }))

module _ (show : Json → String) (policy : ReworkPolicy) where
  -- what follows the scan
  unfoldable pub conclude : ℕ → TaskRecord → List ScannerEvidence → Exec (Answer Validated)
  unfolding reasons_of store
  conclude task_id task evidence = do
    reasons ← lift (reasons_of show evidence)
    decision ← lift (decide policy (task.rework_count + 1) reasons)
    store task_id task evidence decision

  -- for what `ExternalValidationService().run` returns or raises
  abbrev pub concluded : ℕ → TaskRecord → Result (List ScannerEvidence) → Exec (Answer Validated)
  concluded task_id task (err e) = pure (refused 503)
  concluded task_id task (ok evidence) = conclude task_id task evidence

  module _ (run : ℕ → Result (List ScannerEvidence)) where
    -- for the row that `db.get` returned
    abbrev pub validate_found : ℕ → Option TaskRecord → Exec (Answer Validated)
    validate_found task_id none = pure (refused 404)
    validate_found task_id (some task) =
        if is_implemented task.implementation
        then concluded task_id task (run task_id)
        else pure (refused 409)

    -- `external_validation`
    unfoldable pub external_validation : ℕ → Exec (Answer Validated)
    unfolding conclude truthy
    external_validation task_id = do task ← gets (find_task task_id); validate_found task_id task
