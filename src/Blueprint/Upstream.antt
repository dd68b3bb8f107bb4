-- ===== src/Blueprint/Upstream.antt =====
-- `depends_on` inside `validate_blueprint` of hyops/blueprint/schema.py: is a step upstream of
-- another? The list `pending` is kept with its end first, where the code pops and extends.
pub mod Chains
pub mod Search
use hybridops_core.Prelude.{
  ℕ, zero, suc, ◌+◌, String, Bool, true, false, Option, none, some, List, [], ◌∷◌, ◌++◌, contains,
  length, ◌||◌, ◌==◌, not, if◌then◌else◌,
}
use mathlib.Core.List.{reverse}
use hybridops_core.Blueprint.Step.{Step, step_ids, requires_of}

pub data Found : Type 0 where
  answer : Bool → Found
  out_of_fuel : Found

-- `while pending: ...`
unfoldable pub search_upstream :
    (String → Option (List String)) → ℕ → String → List String → List String → Found
search_upstream requires fuel target visited [] = answer false
search_upstream requires zero target visited (c ∷ pending) = out_of_fuel
search_upstream requires (suc fuel) target visited (c ∷ pending) =
    let skip = search_upstream requires fuel target visited pending in
    let push : Found = elim (requires c) [
      | none ↦ skip
      | some deps ↦ search_upstream requires fuel target (c ∷ visited) (reverse deps ++ pending)
    ] in
    if c == target then answer true else if contains c visited then skip else push

-- How many names the steps not yet visited require: they are pushed at most once for each step.
unfoldable pub pushes : (String → Option (List String)) → List String → List String → ℕ
pushes requires [] visited = 0
pushes requires (k ∷ keys) visited =
    let rest = pushes requires keys visited in
    if contains k visited
    then rest
    else elim (requires k) [ none ↦ rest | some deps ↦ length deps + rest ]

-- `depends_on(step_id, required_id)`; a step that is not there is the `KeyError` of `by_id`, `none`.
unfoldable pub depends_on : List Step → String → String → Option Found
unfolding search_upstream pushes requires_of
depends_on steps step_id required_id = elim (requires_of steps step_id) [
  | none ↦ none
  | some deps ↦ some (
      search_upstream (requires_of steps)
        (length deps + pushes (requires_of steps) (step_ids steps) []) required_id []
        (reverse deps))
]
