-- ===== src/PreflightDecision/Laws.antt =====
-- What an accepted bypass of the preflight has given (hyops/runtime/preflight_decision.py).
use Prim.Native.String.{count}
use hybridops_core.Prelude.{String, ◌≡◌, ◌↔◌, ◌⊎◌, Bool, true, false, contains, arith, ltb, ◌&&◌}
use hybridops_core.Text.{is_empty, strip, lower}
use hybridops_core.Raises.{ok}
use hybridops_core.PreflightDecision.{mutating_commands, has_control, validate_preflight_bypass}

-- The conditions on the reason of a bypass.
pub record BypassOk (command : String) (skip_preflight : Bool) (reason : String) : Type 0 where
  pub only_with_skip : (is_empty reason ≡ true) ⊎ (skip_preflight ≡ true)
  pub printable : has_control reason ≡ false
  pub short : ltb 500 (count reason) ≡ false
  pub given :
      (skip_preflight && contains (lower (strip command)) mutating_commands && is_empty reason)
      ≡ false

-- A bypass is accepted exactly if its reason, stripped, is printable, has at most 500 characters, is
-- empty unless the preflight is skipped, and is there when a mutating command skips the preflight;
-- the stripped reason is what is returned.
pub validate_preflight_bypass_iff :
    (command : String) (skip_preflight : Bool) (reason normalized : String)
    → (validate_preflight_bypass command skip_preflight reason ≡ ok normalized)
      ↔ (normalized ≡ strip reason) × BypassOk command skip_preflight (strip reason)
unfolding validate_preflight_bypass
validate_preflight_bypass_iff command skip_preflight reason normalized = (
  λ h. (
    ground arith,
    record {
      only_with_skip = ground arith;
      printable = ground arith;
      short = ground arith;
      given = ground arith;
    },
  ),
  λ (e, b). ground (arith, b.only_with_skip, b.printable, b.short, b.given),
)
