-- ===== src/Blueprint/References.antt =====
-- The last loop of `validate_blueprint` in hyops/blueprint/schema.py: the references between the
-- steps. The order of the tests is the code's.
pub mod Guarantees
use Prim.Native.String.{◌++◌}
use hybridops_core.Prelude.{
  String, Bool, true, false, Option, none, some, List, [], ◌∷◌, contains, ◌||◌, not, if◌then◌else◌,
}
use hybridops_core.Text.{is_empty}
use hybridops_core.Raises.{Raises, ok, value_error, other_error, ◌>>=◌, ◌>>◌, require}
use hybridops_core.Blueprint.Step.{Step, step_ids}
use hybridops_core.Blueprint.Upstream.{Found, answer, out_of_fuel, depends_on}

abbrev pub list_empty {ℓ} : {A : Type ℓ} → List A → Bool
list_empty [] = true
list_empty (x ∷ xs) = false

-- `for req in step["requires"]`
unfoldable pub check_requires : String → List String → List String → Raises (Unit {0})
check_requires step_id ids [] = ok tt
check_requires step_id ids (req ∷ reqs) =
    require (contains req ids) ("step '" ++ step_id ++ "' requires unknown step '" ++ req ++ "'")
    >> check_requires step_id ids reqs

unfoldable pub check_gate : Step → Raises (Unit {0})
check_gate step =
    if step.destroy_gate
    then (do
      require (not (list_empty step.requires))
          ("step '" ++ step.id ++ "' uses destroy_gate and must declare requires")
      require (not (step.optional || step.retain_on_destroy))
          ("step '" ++ step.id ++ "' destroy_gate cannot be optional or retained"))
    else ok tt

-- `if not depends_on(...)`; the search ends within its fuel, see `Upstream/Search`.
upstream_or : String → Option Found → Raises (Unit {0})
upstream_or message (some (answer true)) = ok tt
upstream_or message (some (answer false)) = value_error message
upstream_or message (some out_of_fuel) = other_error "unreachable: out of fuel"
upstream_or message none = other_error "KeyError"

unfoldable pub check_subsumed : List Step → Step → Raises (Unit {0})
unfolding upstream_or depends_on
check_subsumed steps step =
    let parent = step.destroy_subsumed_by in
    if is_empty parent then ok tt else (do
      require (contains parent (step_ids steps)) (
          "step '" ++ step.id ++ "' destroy_subsumed_by references unknown step '" ++ parent ++ "'")
      upstream_or
          ("step '" ++ step.id ++ "' destroy_subsumed_by must reference an upstream dependency")
          (depends_on steps step.id parent)
      require (not (step.retain_on_destroy || step.destroy_gate))
          ("step '" ++ step.id ++ "' destroy_subsumed_by cannot be retained or a destroy gate"))

unfoldable pub check_step : List Step → Step → Raises (Unit {0})
unfolding check_requires check_gate check_subsumed
check_step steps step = do
  check_requires step.id (step_ids steps) step.requires
  check_gate step
  check_subsumed steps step

unfoldable pub check_steps : List Step → List Step → Raises (Unit {0})
unfolding check_step
check_steps steps [] = ok tt
check_steps steps (s ∷ rest) = check_step steps s >> check_steps steps rest

-- `for step in steps`
unfoldable pub check_references : List Step → Raises (Unit {0})
unfolding check_steps
check_references steps = check_steps steps steps
