-- ===== src/StopState/Evaluation/Terminal.antt =====
-- When an environment is stopped, as `evaluate_stop_state` (hyops/state/stop_state.py) decides it.
use hybridops_core.Prelude.{
  ◌≡◌, refl, sym, ap, ◌∙◌, String, Bool, true, false, Option, none, some, List, [], ◌∷◌, snoc,
  any_of, ◌==◌, ◌&&◌, not, is_some, if◌then◌else◌, arith, Bool-cases, inl, inr,
}
use hybridops_core.Text.{is_empty}
use hybridops_core.Blueprint.References.{list_empty}
use hybridops_core.StopState.Manifest.{Resource, Archive, Teardown, find_archive}
use hybridops_core.StopState.Evaluation.Review.{
  Tally, ArchiveFailure, archive_failure, valid_review, is_removed, Findings, retained_findings,
  note_archive_failure, check_scopes, class_stage, scope_stage, note_resource, archive_result,
  note_if, no_findings, retained_entry,
}

-- The archive of a scope is recorded, verified, and has its location and integrity value.
abbrev pub is_archived : List Archive → String → Bool
is_archived archives scope = elim (find_archive scope archives) [
  | none ↦ false
  | some a ↦
      a.verification == "passed" && not (is_empty a.location) && not (is_empty a.integrity_value)
]

abbrev pub all_archived : List Archive → List String → Bool
all_archived archives [] = true
all_archived archives (scope ∷ scopes) = is_archived archives scope && all_archived archives scopes

-- A retained resource is recorded as such, with an owner and a review date; any other is removed.
abbrev pub class_ok : (String → Bool) → Resource → Bool
class_ok is_date r =
    if r.retention_class == "retained"
    then r.state == "retained" && not (is_empty r.owner) && valid_review is_date r.review_date
    else is_removed r.state

abbrev pub scopes_ok : List Archive → Resource → Bool
scopes_ok archives r =
    if r.retention_class == "preserve" then all_archived archives r.archive_scopes else true

abbrev pub is_settled : (String → Bool) → List Archive → Resource → Bool
is_settled is_date archives r = class_ok is_date r && scopes_ok archives r

abbrev pub all_settled : (String → Bool) → List Archive → List Resource → Bool
all_settled is_date archives [] = true
all_settled is_date archives (r ∷ rs) =
    is_settled is_date archives r && all_settled is_date archives rs

abbrev pub is_retained : Resource → Bool
is_retained r = r.retention_class == "retained"

-- The stop state of an environment, from what is declared alone.
abbrev pub stop_state : (String → Bool) → List Archive → List Resource → Bool → String
stop_state is_date archives resources estimate_complete =
    if all_settled is_date archives resources && estimate_complete
    then (if any_of is_retained resources then "terminal_with_retention" else "terminal")
    else "non_terminal"

-- The three checks of a tally.
abbrev pub checks_pass : Tally → Bool
checks_pass t =
    t.resource_states_terminal && t.retention_accountable && list_empty t.archive_failures

list_empty-snoc : {A : Type 0} (xs : List A) (x : A) → list_empty (snoc xs x) ≡ false
list_empty-snoc [] x = refl
list_empty-snoc (y ∷ xs) x = refl

archive_failure-is_some :
    (r : Resource) (scope : String) (archives : List Archive)
    → is_some (archive_failure r scope (find_archive scope archives))
      ≡ not (is_archived archives scope)
unfolding archive_failure
archive_failure-is_some r scope archives = by_archive (find_archive scope archives)
  where
    by_archive :
        (o : Option Archive)
        → is_some (archive_failure r scope o)
          ≡ not (elim o [
            | none ↦ false
            | some a ↦
                a.verification == "passed"
                && not (is_empty a.location)
                && not (is_empty a.integrity_value)
          ])
    by_archive none = refl
    by_archive (some a) = ground arith

-- What the loop over the scopes leaves.
record Scoped (archives : List Archive) (scopes : List String) (before after : Tally × Findings)
    : Type 0 where
  states : after.0.resource_states_terminal ≡ before.0.resource_states_terminal
  accountable : after.0.retention_accountable ≡ before.0.retention_accountable
  failures :
      list_empty after.0.archive_failures
      ≡ (list_empty before.0.archive_failures && all_archived archives scopes)
  retained : after.0.retained_resources ≡ before.0.retained_resources

-- What a failure of an archive leaves.
record Noted (failed : Bool) (before after : Tally × Findings) : Type 0 where
  states : after.0.resource_states_terminal ≡ before.0.resource_states_terminal
  accountable : after.0.retention_accountable ≡ before.0.retention_accountable
  failures :
      list_empty after.0.archive_failures ≡ (list_empty before.0.archive_failures && not failed)
  retained : after.0.retained_resources ≡ before.0.retained_resources

note_archive_failure-Noted :
    (o : Option ArchiveFailure) (at : Tally × Findings)
    → Noted (is_some o) at (note_archive_failure o at)
note_archive_failure-Noted none at = record {
  states = refl;
  accountable = refl;
  failures = ground arith;
  retained = refl;
}
note_archive_failure-Noted (some failure) at = record {
  states = refl;
  accountable = refl;
  failures = ground (arith, list_empty-snoc at.0.archive_failures failure);
  retained = refl;
}

check_scopes-Scoped :
    (archives : List Archive) (r : Resource) (scopes : List String) (at : Tally × Findings)
    → Scoped archives scopes at (check_scopes archives r scopes at)
unfolding check_scopes
check_scopes-Scoped archives r [] at = record {
  states = refl;
  accountable = refl;
  failures = ground arith;
  retained = refl;
}
check_scopes-Scoped archives r (scope ∷ scopes) at =
    let archive = find_archive scope archives in
    let failure = archive_failure r scope archive in
    let listed : Tally × Findings = (
      record at.0 { archive_results = snoc at.0.archive_results (archive_result r scope archive) },
      at.1,
    ) in
    let this = note_archive_failure-Noted failure listed in
    let later = check_scopes-Scoped archives r scopes (note_archive_failure failure listed) in
    record {
      states = later.states ∙ this.states;
      accountable = later.accountable ∙ this.accountable;
      failures =
          ground (arith, later.failures, this.failures, archive_failure-is_some r scope archives);
      retained = later.retained ∙ this.retained;
    }

pub class_stage-checks :
    (is_date : String → Bool) (step : Option Teardown) (r : Resource) (t : Tally)
    → checks_pass (class_stage is_date step r t).0 ≡ (checks_pass t && class_ok is_date r)
unfolding class_stage
class_stage-checks is_date step r t = elim (Bool-cases (r.retention_class == "retained")) [
  | inl kept ↦ elim (Bool-cases (list_empty (retained_findings is_date r).reasons)) [
    | inl clear ↦ rw (kept, clear) (ground arith)
    | inr against ↦ rw (kept, against) (ground arith)
  ]
  | inr other ↦ rw other (ground arith)
]

note_if-none :
    (test : Bool) (reason action : String) (f : Findings)
    → list_empty (note_if test reason action f).reasons ≡ (not test && list_empty f.reasons)
note_if-none true reason action f = list_empty-snoc f.reasons reason
note_if-none false reason action f = refl

retained_findings-none :
    (is_date : String → Bool) (r : Resource)
    → list_empty (retained_findings is_date r).reasons
      ≡ (r.state == "retained" && not (is_empty r.owner) && valid_review is_date r.review_date)
unfolding retained_findings
retained_findings-none is_date r =
    let unkept =
      note_if (not (r.state == "retained")) "resource is not recorded as retained"
        "record approved retention or remove the resource" no_findings in
    let unowned =
      note_if (is_empty r.owner) "retained resource has no owner" "assign an owner and review date"
        unkept in
    note_if-none (not (valid_review is_date r.review_date))
      "retained resource has no valid review date" "assign an owner and review date" unowned
    ∙ ap (λ b. not (not (valid_review is_date r.review_date)) && b)
        (note_if-none (is_empty r.owner) "retained resource has no owner"
            "assign an owner and review date" unkept
          ∙ ap (λ b. not (is_empty r.owner) && b)
              (note_if-none (not (r.state == "retained")) "resource is not recorded as retained"
                "record approved retention or remove the resource" no_findings))
    ∙ reorder (r.state == "retained") (is_empty r.owner) (valid_review is_date r.review_date)
  where
    reorder : (a b c : Bool) → (not (not c) && (not b && (not (not a) && true))) ≡ (a && not b && c)
    reorder a b c = ground arith

-- A resource enters the retained ones when it is retained and nothing speaks against it.
pub class_stage-retained :
    (is_date : String → Bool) (step : Option Teardown) (r : Resource) (t : Tally)
    → list_empty (class_stage is_date step r t).0.retained_resources
      ≡ (list_empty t.retained_resources && not (is_retained r && class_ok is_date r))
unfolding class_stage
class_stage-retained is_date step r t = elim (Bool-cases (r.retention_class == "retained")) [
  | inl kept ↦
      let clear = retained_findings-none is_date r in
      elim (Bool-cases (list_empty (retained_findings is_date r).reasons)) [
        | inl e ↦
            let fine = sym clear ∙ e in
            rw (kept, e, fine)
              (ground (arith, list_empty-snoc t.retained_resources (retained_entry r)))
        | inr e ↦ let wrong = sym clear ∙ e in rw (kept, e, wrong) (ground arith)
      ]
  | inr other ↦ rw other (ground arith)
]

pub scope_stage-checks :
    (archives : List Archive) (r : Resource) (at : Tally × Findings)
    → checks_pass (scope_stage archives r at).0 ≡ (checks_pass at.0 && scopes_ok archives r)
scope_stage-checks archives r at =
    let scoped = check_scopes-Scoped archives r r.archive_scopes at in
    ground (arith, scoped.states, scoped.accountable, scoped.failures)

pub scope_stage-retained :
    (archives : List Archive) (r : Resource) (at : Tally × Findings)
    → (scope_stage archives r at).0.retained_resources ≡ at.0.retained_resources
scope_stage-retained archives r at =
    let scoped = check_scopes-Scoped archives r r.archive_scopes at in
    elim (Bool-cases (r.retention_class == "preserve")) [
      | inl preserved ↦ rw (preserved, scoped.retained)
      | inr other ↦ rw other
    ]

pub note_resource-checks :
    (step : Option Teardown) (r : Resource) (at : Tally × Findings)
    → checks_pass (note_resource step r at) ≡ checks_pass at.0
unfolding note_resource
note_resource-checks step r at = refl

pub note_resource-retained :
    (step : Option Teardown) (r : Resource) (at : Tally × Findings)
    → (note_resource step r at).retained_resources ≡ at.0.retained_resources
unfolding note_resource
note_resource-retained step r at = refl
