-- ===== src/PreflightDecision/Examples.antt =====
-- A bypass of the preflight (hyops/runtime/preflight_decision.py).
use hybridops_core.Prelude.{◌≡◌, ◌↔◌, true, refl}
use hybridops_core.Text.{strip}
use hybridops_core.Raises.{ok}
use hybridops_core.PreflightDecision.{validate_preflight_bypass}
use hybridops_core.PreflightDecision.Laws.{BypassOk, validate_preflight_bypass_iff}

validate_preflight_bypass_iff_example :
    (validate_preflight_bypass "Apply" true " lab rebuild " ≡ ok "lab rebuild")
    ↔ ("lab rebuild" ≡ strip " lab rebuild ") × BypassOk "Apply" true (strip " lab rebuild ")
validate_preflight_bypass_iff_example =
    validate_preflight_bypass_iff "Apply" true " lab rebuild " "lab rebuild"

bypass_is_accepted : validate_preflight_bypass "Apply" true " lab rebuild " ≡ ok "lab rebuild"
unfolding validate_preflight_bypass
bypass_is_accepted = refl
