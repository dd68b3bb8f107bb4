-- ===== src/Blueprint/References/Guarantees.antt =====
-- What steps satisfy whose references were accepted (hyops/blueprint/schema.py).
use hybridops_core.Prelude.{
  String, ◌≡◌, ◌⊎◌, inl, inr, Bool, true, false, some, List, [], ◌∷◌, contains, arith, refl,
  Option-cases, eq_refl,
}
use hybridops_core.Text.{is_empty}
use hybridops_core.Raises.{ok, >>=-elim_ok}
use hybridops_core.Blueprint.Step.{Step, step_ids, requires_of}
use hybridops_core.Blueprint.Order.{Walk, done, cycle, topological_order}
use hybridops_core.Blueprint.Order.Sound.{AllIn}
use hybridops_core.Blueprint.Order.Cycles.{IsCycle}
use hybridops_core.Blueprint.Order.Correct.{
  AllKnown, IsOrder, requires_of-some, topological_order_decides,
}
use hybridops_core.Blueprint.Upstream.{answer, depends_on}
use hybridops_core.Blueprint.Upstream.Search.{depends_on_iff}
use hybridops_core.Blueprint.Upstream.Chains.{Upstream}
use hybridops_core.Blueprint.References.{
  list_empty, check_requires, check_gate, check_subsumed, check_step, check_steps, check_references,
}

-- A destroy gate has requirements, and is neither optional nor retained.
abbrev pub GateOk : Bool → Step → Type 0
GateOk true step =
    (list_empty step.requires ≡ false) × (step.optional ≡ false) × (step.retain_on_destroy ≡ false)
GateOk false step = Unit

-- A step that another one subsumes at destruction is downstream of it, and is neither retained nor
-- a gate.
abbrev pub SubsumedOk : Bool → List Step → Step → Type 0
SubsumedOk true steps step = Unit
SubsumedOk false steps step =
    (contains step.destroy_subsumed_by (step_ids steps) ≡ true)
    × Upstream (requires_of steps) step.id step.destroy_subsumed_by
    × (step.retain_on_destroy ≡ false)
    × (step.destroy_gate ≡ false)

pub record StepOk (steps : List Step) (step : Step) : Type 0 where
  pub requirements : AllIn step.requires (step_ids steps)
  pub gate : GateOk step.destroy_gate step
  pub subsumed : SubsumedOk (is_empty step.destroy_subsumed_by) steps step

abbrev pub AllOk : List Step → List Step → Type 0
AllOk steps [] = Unit
AllOk steps (s ∷ rest) = StepOk steps s × AllOk steps rest

check_requires-AllIn :
    (step_id : String) (ids reqs : List String)
    → check_requires step_id ids reqs ≡ ok tt
    → AllIn reqs ids
unfolding check_requires
check_requires-AllIn step_id ids [] h = tt
check_requires-AllIn step_id ids (r ∷ reqs) h =
    ground (arith, check_requires-AllIn step_id ids reqs)

check_gate-GateOk : (step : Step) → check_gate step ≡ ok tt → GateOk step.destroy_gate step
unfolding check_gate
check_gate-GateOk step h = ground arith

-- An answer `true` of the search is a chain of requirements.
depends_on-Upstream :
    (steps : List Step) (step_id parent : String)
    → contains step_id (step_ids steps) ≡ true
    → depends_on steps step_id parent ≡ some (answer true)
    → Upstream (requires_of steps) step_id parent
depends_on-Upstream steps step_id parent m h = elim (Option-cases (requires_of steps step_id)) [
  | inl n ↦ absurd (ground (arith, requires_of-some steps step_id m))
  | inr (deps, n) ↦
      let (b, e, iff) = depends_on_iff steps step_id parent n in iff.0 (ground (arith, e))
]

module _ (steps : List Step) (step : Step) (inside : contains step.id (step_ids steps) ≡ true) where
  subsumed_parts :
      is_empty step.destroy_subsumed_by ≡ false
      → check_subsumed steps step ≡ ok tt
      → (contains step.destroy_subsumed_by (step_ids steps) ≡ true)
        × (depends_on steps step.id step.destroy_subsumed_by ≡ some (answer true))
        × (step.retain_on_destroy ≡ false)
        × (step.destroy_gate ≡ false)
  unfolding check_subsumed
  subsumed_parts e h = ground arith

  check_subsumed-SubsumedOk :
      (none_given : Bool)
      → is_empty step.destroy_subsumed_by ≡ none_given
      → check_subsumed steps step ≡ ok tt
      → SubsumedOk none_given steps step
  check_subsumed-SubsumedOk true e h = tt
  check_subsumed-SubsumedOk false e h =
      let p = subsumed_parts e h in
      (p.0, depends_on-Upstream steps step.id step.destroy_subsumed_by inside p.1, p.2, p.3)

  check_step-StepOk : check_step steps step ≡ ok tt → StepOk steps step
  unfolding check_step
  check_step-StepOk h =
      >>=-elim_ok (check_requires step.id (step_ids steps) step.requires) _ h λ _ a h1.
        >>=-elim_ok (check_gate step) _ h1 λ _ b h2. record {
          requirements = check_requires-AllIn step.id (step_ids steps) step.requires a;
          gate = check_gate-GateOk step b;
          subsumed = check_subsumed-SubsumedOk _ refl h2;
        }

check_steps-AllOk :
    (steps rest : List Step)
    → ((x : String) → contains x (step_ids rest) ≡ true → contains x (step_ids steps) ≡ true)
    → check_steps steps rest ≡ ok tt
    → AllOk steps rest
unfolding check_steps
check_steps-AllOk steps [] inside h = tt
check_steps-AllOk steps (s ∷ rest) inside h = >>=-elim_ok (check_step steps s) _ h λ _ now later. (
  check_step-StepOk steps s (inside s.id (ground (arith, eq_refl s.id))) now,
  check_steps-AllOk steps rest (λ x m. inside x (ground arith)) later,
)

-- When the references are accepted, every step requires only steps of the blueprint, every destroy
-- gate has requirements and is neither optional nor retained, and every step that another subsumes
-- at destruction has that other upstream, and is neither retained nor a gate.
pub check_references-AllOk :
    (steps : List Step) → check_references steps ≡ ok tt → AllOk steps steps
unfolding check_references
check_references-AllOk steps h = check_steps-AllOk steps steps (λ x m. m) h

AllOk-AllKnown : (steps rest : List Step) → AllOk steps rest → AllKnown rest (step_ids steps)
AllOk-AllKnown steps [] a = tt
AllOk-AllKnown steps (s ∷ rest) a = (a.0.requirements, AllOk-AllKnown steps rest a.1)

-- Steps whose references are accepted are ordered, with no chain of requirements that comes back to
-- itself, or such a chain is reported: `topological_order` meets no unknown step.
pub validated_order :
    (steps : List Step)
    → check_references steps ≡ ok tt
    → ((w : Walk) × (topological_order steps ≡ done w)
        × IsOrder steps w.order
        × ((names : List String) → ¬ IsCycle (requires_of steps) names))
      ⊎ ((names : List String) × (topological_order steps ≡ cycle names)
          × IsCycle (requires_of steps) names)
validated_order steps h =
    topological_order_decides steps (AllOk-AllKnown steps steps (check_references-AllOk steps h))
