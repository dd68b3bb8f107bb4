-- ===== src/Blueprint/Order.antt =====
-- `topological_order` of hyops/blueprint/schema.py: a depth-first walk over the `requires` of the
-- steps. Its fuel bounds the nesting of `dfs`; `exhausted` is never the result, see `Order/Fuel`.
pub mod Fuel
pub mod Sound
pub mod Cycles
pub mod Acyclic
pub mod Correct
use hybridops_core.Prelude.{
  ℕ, zero, suc, String, Bool, Option, none, some, List, [], ◌∷◌, ◌++◌, contains, length,
  if◌then◌else◌,
}
use hybridops_core.Blueprint.Step.{Step, step_ids, requires_of}

-- The two collections that `dfs` changes. `visiting` is restored by every call that returns, so it
-- is an argument.
pub record Walk : Type 0 where
  pub visited : List String
  pub order : List String

-- `cycle` holds the names of the message of the `ValueError`; `missing` is the `KeyError` of
-- `by_id[step_id]`.
pub data Walked : Type 0 where
  done : Walk → Walked
  cycle : List String → Walked
  missing : String → Walked
  exhausted : Walked

abbrev pub continue : Walked → (Walk → Walked) → Walked
continue (done w) k = k w
continue (cycle names) k = cycle names
continue (missing name) k = missing name
continue exhausted k = exhausted

-- `for dep_id in ...: dfs(dep_id)`, where `call` is `dfs`
unfoldable pub visit_all : (String → Walk → Walked) → List String → Walk → Walked
visit_all call [] w = done w
visit_all call (d ∷ ds) w = continue (call d w) (visit_all call ds)

-- `visited.add(step_id); order.append(step_id)`
abbrev pub finish : String → Walk → Walk
finish step_id w = record { visited = step_id ∷ w.visited; order = w.order ++ step_id ∷ [] }

unfoldable pub dfs : (String → Option (List String)) → ℕ → List String → String → Walk → Walked
dfs requires zero visiting step_id w = exhausted
dfs requires (suc fuel) visiting step_id w =
    if contains step_id w.visited
    then done w
    else if contains step_id visiting
    then cycle (visiting ++ step_id ∷ [])
    else elim (requires step_id) [
      | none ↦ missing step_id
      | some deps ↦
          continue (visit_all (dfs requires fuel (visiting ++ step_id ∷ [])) deps w)
            (λ w'. done (finish step_id w'))
    ]

abbrev pub start : Walk
start = record { visited = []; order = [] }

unfoldable pub topological_order : List Step → Walked
unfolding dfs visit_all requires_of
topological_order steps =
    visit_all (dfs (requires_of steps) (suc (length steps)) []) (step_ids steps) start
