-- ===== src/State/Refs/Collapse/Laws.antt =====
-- The loop that collapses slashes (hyops/runtime/refs.py) ends with none doubled.
use Prim.Native.String.{count}
use text.Mathlib.TextLemmas.{length-cons}
use hybridops_core.Prelude.{ℕ, zero, suc, ◌+◌, ◌≤◌, ◌≡◌, String, Bool, true, false, arith}
use hybridops_core.State.Refs.Collapse.{
  is_slash, has_double_after, has_double_slash, replace_double, collapse_loop, collapse,
}

unit_of : Bool → ℕ
unit_of true = 1
unit_of false = 0

-- A pass drops a character for a doubled slash.
replace_double-count :
    (pending : Bool) (s : String)
    → count (replace_double pending s) + unit_of (has_double_after pending s)
      ≤ count s + unit_of pending
unfolding replace_double has_double_after unit_of
replace_double-count false String.[] = omega arith
replace_double-count true String.[] = omega arith
replace_double-count false (String.◌∷◌ c s) =
    let rest = replace_double (is_slash c) s in
    ground (arith, replace_double-count (is_slash c) s, length-cons c s, length-cons c rest)
replace_double-count true (String.◌∷◌ c s) =
    let rest = replace_double false s in
    ground (
      arith,
      replace_double-count false s,
      length-cons c s,
      length-cons c rest,
      length-cons "/" (String.◌∷◌ c rest),
    )

collapse_loop-single :
    (fuel : ℕ) (v : String) → count v ≤ fuel → has_double_slash (collapse_loop fuel v) ≡ false
unfolding collapse_loop has_double_after unit_of
collapse_loop-single zero String.[] h = ground arith
collapse_loop-single zero (String.◌∷◌ c s) h = ground (arith, length-cons c s)
collapse_loop-single (suc fuel) v h =
    ground (arith, replace_double-count false v, collapse_loop-single fuel (replace_double false v))

-- The loop of `normalize_module_ref` that replaces doubled slashes ends, and what it leaves has
-- none.
pub has_double_slash-collapse : (v : String) → has_double_slash (collapse v) ≡ false
unfolding collapse
has_double_slash-collapse v = collapse_loop-single (count v) v (omega arith)
