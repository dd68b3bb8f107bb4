-- ===== src/StopState/Estimate/Bounds.antt =====
-- The bound of the coverage of an estimate (hyops/state/stop_state.py): what is included is
-- distinct and bears a cost, so that it is at most everything that bears a cost.
use Prim.Native.Nat.{◌/◌, ◌%◌}
use hybridops_core.Prelude as P
use hybridops_core.Prelude.{
  ℕ, zero, suc, ◌+◌, ◌*◌, ◌≤◌, ◌<◌, ◌≡◌, refl, sym, ap, ◌∙◌, subst, String, Bool, true, false, List,
  [], ◌∷◌, contains, contains-append, distinct, length, ◌&&◌, ◌||◌, not, ◌==◌, eq_iff, eq_refl,
  arith, ltb, nat_eq, if◌then◌else◌, Bool-cases, if_elim, inl, inr,
}
use hybridops_core.Raises.{ok, >>=-elim_ok, require-eq-ok}
use hybridops_core.Value.{Value, null, bool, int, str, opaque, seq, dict, Fields}
use hybridops_core.Blueprint.References.{list_empty}
use hybridops_core.StopState.Readers.{
  StopEnv, value_at, read_mapping, read_text, read_text_list, text_items, read_decimal,
  read_timestamp, distinct_texts,
}
use hybridops_core.StopState.Manifest.{Resource, resource_ids}
use hybridops_core.StopState.Estimate.{
  Estimate, common, minus, cost_bearing_ids, round_half_even, coverage_of, classify, overlap_error,
  unknown_error, non_cost_error, estimate_of, evaluate_estimate,
}

full_quotient : (k n q r : ℕ) → k ≤ n → 0 < n → n * q + r ≡ 10000 * k → q ≤ 10000
full_quotient k n q r h positive e = grind arith

part_quotient : (k n q r : ℕ) → k ≤ n → 0 < r → n * q + r ≡ 10000 * k → q < 10000
part_quotient k n q r h positive e = grind arith

-- A part of the whole is at most 100 percent, rounded.
round_half_even-le : (k n : ℕ) → k ≤ n → 0 < n → round_half_even (10000 * k) n ≤ 10000
unfolding round_half_even
round_half_even-le k n h positive =
    let q = 10000 * k / n in
    let r = 10000 * k % n in
    let e : n * q + r ≡ 10000 * k = omega arith in
    let whole = full_quotient k n q r h positive e in ground (arith, part_quotient k n q r h)

-- The list without the first place of a name.
remove : String → List String → List String
remove x [] = []
remove x (y ∷ ys) = if x == y then ys else y ∷ remove x ys

length-remove :
    (x : String) (ys : List String) → contains x ys ≡ true → suc (length (remove x ys)) ≡ length ys
unfolding remove
length-remove x [] h = ground arith
length-remove x (y ∷ ys) h = ground (arith, length-remove x ys)

contains-remove :
    (x z : String) (ys : List String)
    → (z == x) ≡ false
    → contains z ys ≡ true
    → contains z (remove x ys) ≡ true
unfolding remove
contains-remove x z [] apart h = ground arith
contains-remove x z (y ∷ ys) apart h =
    ground (arith, contains-remove x z ys apart, eq_iff z y, eq_iff x y, eq_iff z x)

abbrev all_in : List String → List String → Bool
all_in [] ys = true
all_in (x ∷ xs) ys = contains x ys && all_in xs ys

all_in-remove :
    (x : String) (xs ys : List String)
    → contains x xs ≡ false
    → all_in xs ys ≡ true
    → all_in xs (remove x ys) ≡ true
all_in-remove x [] ys apart h = refl
all_in-remove x (z ∷ xs) ys apart h =
    ground (arith, all_in-remove x xs ys, contains-remove x z ys, eq_iff z x, eq_iff x z)

distinct-length-le :
    (xs ys : List String) → distinct xs ≡ true → all_in xs ys ≡ true → length xs ≤ length ys
distinct-length-le [] ys d h = omega arith
distinct-length-le (x ∷ xs) ys d h =
    ground (arith, length-remove x ys, all_in-remove x xs ys, distinct-length-le xs (remove x ys))

minus-all_in :
    (xs more ys : List String) → list_empty (minus (P.◌++◌ xs more) ys) ≡ true → all_in xs ys ≡ true
unfolding minus
minus-all_in [] more ys h = refl
minus-all_in (x ∷ xs) more ys h = ground (arith, minus-all_in xs more ys)

coverage_of-le :
    (included cost_bearing : List String)
    → length included ≤ length cost_bearing
    → coverage_of included cost_bearing ≤ 10000
unfolding coverage_of
coverage_of-le included [] h = omega arith
coverage_of-le included (x ∷ cost_bearing) h =
    round_half_even-le (length included) (length (x ∷ cost_bearing)) h (omega arith)

distinct_texts-distinct :
    (label : String) (tokens result : List String)
    → distinct_texts label tokens ≡ ok result
    → distinct result ≡ true
distinct_texts-distinct label tokens result h =
    if_elim (distinct tokens) h (λ d e. subst (λ l. distinct l ≡ true) (ok_inj e) d)
      (λ d e. ground arith)
  where
    ok_inj : {a b : List String} → ok a ≡ ok b → a ≡ b
    ok_inj p = cc

read_text_list-distinct :
    (v : Value) (label : String) (result : List String)
    → read_text_list v label ≡ ok result
    → distinct result ≡ true
unfolding read_text_list
read_text_list-distinct (seq items) label result h =
    >>=-elim_ok (text_items label 0 items) _ h
      λ tokens e d. distinct_texts-distinct label tokens result d
read_text_list-distinct null label result h = ground arith
read_text_list-distinct (bool b) label result h = ground arith
read_text_list-distinct (int z) label result h = ground arith
read_text_list-distinct (str s) label result h = ground arith
read_text_list-distinct (opaque o) label result h = ground arith
read_text_list-distinct (dict fs) label result h = ground arith

classify-bound :
    (resources : List Resource) (currency fixed_hourly pricing_timestamp : String)
    (included excluded : List String) (estimate : Estimate)
    → classify resources currency fixed_hourly pricing_timestamp included excluded ≡ ok estimate
    → distinct included ≡ true
    → estimate.coverage_percent ≤ 10000
unfolding classify estimate_of
classify-bound resources currency fixed_hourly pricing_timestamp included excluded estimate h d =
    let cost_bearing = cost_bearing_ids resources in
    let referenced = P.◌++◌ included excluded in
    let overlap = common included excluded in
    let unknown = minus referenced (resource_ids resources) in
    let non_cost = minus referenced cost_bearing in
    let (no_overlap, h1) = require-eq-ok (list_empty overlap) (overlap_error overlap) _ h in
    let (known, h2) = require-eq-ok (list_empty unknown) (unknown_error unknown) _ h1 in
    let (bearing, h3) = require-eq-ok (list_empty non_cost) (non_cost_error non_cost) _ h2 in
    let within = minus-all_in included excluded cost_bearing bearing in
    let fits = distinct-length-le included cost_bearing d within in
    let made = estimate_of currency fixed_hourly pricing_timestamp included excluded cost_bearing in
    let same : made ≡ estimate = ok_inj h3 in
    subst (λ c. c ≤ 10000) (ap coverage same) (coverage_of-le included cost_bearing fits)
  where
    coverage : Estimate → ℕ
    coverage e = e.coverage_percent

    ok_inj : {a b : Estimate} → ok a ≡ ok b → a ≡ b
    ok_inj p = cc

-- The coverage of an estimate is at most 100 percent.
pub evaluate_estimate-bound :
    (env : StopEnv) (manifest : Fields) (resources : List Resource) (estimate : Estimate)
    → evaluate_estimate env manifest resources ≡ ok estimate
    → estimate.coverage_percent ≤ 10000
unfolding evaluate_estimate
evaluate_estimate-bound env manifest resources estimate h =
    >>=-elim_ok (read_mapping (value_at "estimate" manifest) "estimate") _ h λ fs e1 h1.
      >>=-elim_ok (read_text (value_at "currency" fs) "estimate.currency") _ h1 λ currency e2 h2.
        >>=-elim_ok (read_decimal env (value_at "fixed_hourly" fs) "estimate.fixed_hourly") _ h2
          λ hourly e3 h3.
            >>=-elim_ok
              (read_timestamp env (value_at "pricing_timestamp" fs) "estimate.pricing_timestamp") _
              h3
              λ priced e4 h4.
                >>=-elim_ok (read_text_list (value_at "included" fs) "estimate.included") _ h4
                  λ included e5 h5.
                    >>=-elim_ok (read_text_list (value_at "excluded" fs) "estimate.excluded") _ h5
                      λ excluded e6 h6.
                        classify-bound resources _ hourly priced included excluded estimate h6 (
                          read_text_list-distinct (value_at "included" fs) "estimate.included"
                            included e5)
