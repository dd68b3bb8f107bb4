-- ===== src/PreflightDecision.antt =====
-- hyops/runtime/preflight_decision.py: the bypass of a preflight and the record of the decision. The
-- time of day is a parameter.
pub mod Laws
mod Examples
use Prim.Native.Char.{code}
use Prim.Native.String.{count, ◌++◌}
use hybridops_core.Prelude.{
  ℕ, String, Bool, true, false, Option, none, some, List, [], ◌∷◌, contains, ltb, nat_eq, ◌&&◌,
  ◌||◌, not, if◌then◌else◌,
}
use hybridops_core.Text.{is_empty, strip, lower, or_text}
use hybridops_core.Raises.{Raises, ok, value_error, ◌>>=◌, ◌>>◌, require}
use hybridops_core.Value.{Fields, fields_empty}

abbrev pub mutating_commands : List String
mutating_commands = "apply" ∷ "deploy" ∷ "destroy" ∷ "import" ∷ "rebuild" ∷ []

abbrev pub max_bypass_reason_length : ℕ
max_bypass_reason_length = 500

-- `any(ord(char) < 32 or ord(char) == 127 for char in normalized)`
unfoldable pub has_control : String → Bool
has_control String.[] = false
has_control (String.◌∷◌ c s) = ltb (code c) 32 || nat_eq (code c) 127 || has_control s

-- The reason may be missing, which is the empty text here.
unfoldable pub validate_preflight_bypass : String → Bool → String → Raises String
unfolding strip lower has_control
validate_preflight_bypass command skip_preflight reason =
    let command_name = lower (strip command) in
    let normalized = strip reason in
    do
      require (not (not (is_empty normalized) && not skip_preflight))
          "--preflight-bypass-reason requires --skip-preflight"
      require (not (has_control normalized))
          "--preflight-bypass-reason must be a single printable line"
      require (not (ltb max_bypass_reason_length (count normalized)))
          "--preflight-bypass-reason must not exceed 500 characters"
      require
          (not (skip_preflight && contains command_name mutating_commands && is_empty normalized))
          "--skip-preflight for a mutating command requires --preflight-bypass-reason"
      ok normalized

-- The dict of a decision; keys that are set late are absent before.
pub record PreflightDecision : Type 0 where
  pub scope : String
  pub requirement : String
  pub command : String
  pub mutating : Bool
  pub decision : String
  pub status : String
  pub guarantee : String
  pub decision_source : String
  pub reason : String
  pub recorded_at : String
  pub parent : Option Fields
  pub completed_at : Option String
  pub detail : Option String

unfoldable pub new_preflight_decision :
    String → Bool → String → String → String → Option Fields → String → PreflightDecision
unfolding strip lower
new_preflight_decision command bypassed reason scope decision_source parent now = record {
  scope = strip (or_text scope "driver");
  requirement = strip (or_text scope "driver") ++ "-preflight";
  command = lower (strip command);
  mutating = contains (lower (strip command)) mutating_commands;
  decision = if bypassed then "bypass" else "enforce";
  status = if bypassed then "bypassed" else "pending";
  guarantee = if bypassed then "not-established" else "pending";
  decision_source = strip (or_text decision_source "operator-cli");
  reason = strip reason;
  recorded_at = now;
  parent = elim parent [ none ↦ none | some fs ↦ if fields_empty fs then none else some fs ];
  completed_at = none;
  detail = none;
}

unfoldable pub complete_preflight_decision :
    PreflightDecision → Bool → String → String → PreflightDecision
unfolding strip
complete_preflight_decision decision passed detail now = record decision {
  status = if passed then "passed" else "failed";
  guarantee = if passed then "established" else "not-established";
  completed_at = some now;
  detail = if is_empty detail then decision.detail else some (strip detail);
}
