-- ===== src/Api/Clean.antt =====
-- What app/api/routes/tasks.py asks of the evidence of the scanners before it completes a task.
use steh_v1_0_0_rc.Base.{
  ◌≡◌, refl, String, Bool, true, false, none, some, List, [], ◌∷◌, ◌++◌, All, concat, Result, ok,
  >>=-eq-ok, if◌then◌else◌,
}
use steh_v1_0_0_rc.Json.{Json, str, obj, lookup, get, get_default}
use steh_v1_0_0_rc.Tools.Scanners.{ScannerEvidence}
use steh_v1_0_0_rc.Api.ExternalValidation.{is_severe, finding_reasons, findings_reasons, reasons_of}

-- The finding is not rated HIGH or CRITICAL.
abbrev pub IsMinor : Json → Type 0
IsMinor finding = (v : Json) × (get finding "severity" ≡ ok v) × (is_severe v ≡ ok false)

-- The scanner ran, and found nothing severe.
abbrev pub IsClean : ScannerEvidence → Type 0
IsClean item = (item.success ≡ true) × All IsMinor item.findings

append-empty : {A : Type 0} (xs ys : List A) → xs ++ ys ≡ [] → (xs ≡ []) × (ys ≡ [])
append-empty [] ys h = (refl, h)
append-empty (x ∷ xs) ys h = absurd (cc h)

none_if_empty :
    (severe : Bool) (s : String)
    → ◌≡◌ {A = Result (List String)} (ok (if severe then s ∷ [] else [])) (ok [])
    → severe ≡ false
none_if_empty true s h = absurd (cc h)
none_if_empty false s h = refl

finding-IsMinor :
    (show : Json → String) (scanner : String) (finding : Json)
    → finding_reasons show scanner finding ≡ ok []
    → IsMinor finding
unfolding finding_reasons
finding-IsMinor show scanner finding h =
    let (v, e, r) = >>=-eq-ok (get finding "severity") _ h in
    let (severe, f, t) = >>=-eq-ok (is_severe v) _ r in
    let (rule_id, _, l) = >>=-eq-ok (get_default finding "rule_id" (str "finding")) _ t in
    (v, e, cc (f, none_if_empty severe _ l))

get-get_default :
    (finding : Json) (k : String) (d : Json) (j : String) {v : Json}
    → get finding j ≡ ok v
    → (w : Json) × (get_default finding k d ≡ ok w)
unfolding get get_default
get-get_default (obj fs) k d j h =
    elim (lookup k fs)
      as (λ o.
        (x : Json) × (◌≡◌ {A = Result Json} (elim o [ none ↦ ok d | some v ↦ ok v ]) (ok x))) [
          | none ↦ (d, refl)
          | some w ↦ (w, refl)
        ]
get-get_default _ k d j h = absurd (cc h)

IsMinor-finding :
    (show : Json → String) (scanner : String) (finding : Json)
    → IsMinor finding
    → finding_reasons show scanner finding ≡ ok []
unfolding finding_reasons
IsMinor-finding show scanner finding (v, e, minor) =
    let (w, d) = get-get_default finding "rule_id" (str "finding") "severity" e in
    rw (e, minor, d) refl

findings-IsMinor :
    (show : Json → String) (scanner : String) (findings : List Json)
    → findings_reasons show scanner findings ≡ ok []
    → All IsMinor findings
unfolding findings_reasons
findings-IsMinor show scanner [] h = tt
findings-IsMinor show scanner (finding ∷ findings) h =
    let (first, e, r) = >>=-eq-ok (finding_reasons show scanner finding) _ h in
    let (rest, f, t) = >>=-eq-ok (findings_reasons show scanner findings) _ r in
    let (none_first, none_rest) = append-empty first rest (cc t) in
    (
      finding-IsMinor show scanner finding (cc (e, none_first)),
      findings-IsMinor show scanner findings (cc (f, none_rest)),
    )

IsMinor-findings :
    (show : Json → String) (scanner : String) (findings : List Json)
    → All IsMinor findings
    → findings_reasons show scanner findings ≡ ok []
unfolding findings_reasons
IsMinor-findings show scanner [] h = refl
IsMinor-findings show scanner (finding ∷ findings) (minor, rest) =
    rw (IsMinor-finding show scanner finding minor, IsMinor-findings show scanner findings rest)
      refl

-- the reasons of one item, as the loop puts them together
success_if_empty :
    (success : Bool) (s : String) (more : List String)
    → (if success then [] else s ∷ []) ++ more ≡ []
    → (success ≡ true) × (more ≡ [])
success_if_empty true s more h = (refl, h)
success_if_empty false s more h = absurd (cc h)

-- There is no reason for a rework only if each scanner ran and found nothing severe.
pub no_reasons-IsClean :
    (show : Json → String) (evidence : List ScannerEvidence)
    → reasons_of show evidence ≡ ok []
    → All IsClean evidence
unfolding reasons_of
no_reasons-IsClean show [] h = tt
no_reasons-IsClean show (item ∷ items) h =
    let (found, e, r) = >>=-eq-ok (findings_reasons show item.scanner item.findings) _ h in
    let (rest, f, t) = >>=-eq-ok (reasons_of show items) _ r in
    let (success, more) =
      success_if_empty item.success (concat item.scanner ": scanner execution failed")
        (found ++ rest) (cc t) in
    let (none_found, none_rest) = append-empty found rest more in
    (
      (success, findings-IsMinor show item.scanner item.findings (cc (e, none_found))),
      no_reasons-IsClean show items (cc (f, none_rest)),
    )

pub IsClean-no_reasons :
    (show : Json → String) (evidence : List ScannerEvidence)
    → All IsClean evidence
    → reasons_of show evidence ≡ ok []
unfolding reasons_of
IsClean-no_reasons show [] h = refl
IsClean-no_reasons show (item ∷ items) ((success, minor), rest) =
    rw
      (
        IsMinor-findings show item.scanner item.findings minor,
        IsClean-no_reasons show items rest,
        success,
      )
      refl
