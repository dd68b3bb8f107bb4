-- ===== src/Blueprint/Plan/Deferral.antt =====
-- Which steps `compute_preflight` (hyops/blueprint/planner.py) defers, over the whole order.
use hybridops_core.Prelude.{
  String, ◌≡◌, inl, inr, Bool, true, false, not, some, List, [], ◌∷◌, ◌++◌, ◌&&◌, contains,
  contains-append, distinct, lookup, lookup-insert, arith, refl, sym, subst, ap, eq_iff, ◌==◌, ◌∙◌,
  Bool-cases, Option-cases, if◌then◌else◌,
}
use hybridops_core.Raises.{Raises, ok, >>=-elim_ok}
use hybridops_core.Text.{is_empty}
use hybridops_core.Blueprint.Step.{Step, by_id, requires_of}
use hybridops_core.Blueprint.References.{list_empty}
use hybridops_core.Blueprint.Preflight.{StepEnv, StepResult, preflight_step}
use hybridops_core.Blueprint.Preflight.Statuses.{preflight_step-Consistent}
use hybridops_core.Blueprint.Order.Sound.{AllIn, InOrder}
use hybridops_core.Blueprint.Order.Correct.{IsOrder}
use hybridops_core.Blueprint.Plan.{
  Plan, empty_plan, has_status, plan_step, plan_steps, compute_preflight, uses_linux,
  controller_result,
}
use hybridops_core.Blueprint.Plan.Propagation.{is_bad, any_bad, Effect, plan_step-Effect}

pub by_id-id : (steps : List Step) (x : String) {s : Step} → by_id steps x ≡ some s → s.id ≡ x
unfolding by_id
by_id-id [] x h = ground arith
by_id-id (t ∷ steps) x h = elim (Option-cases (by_id steps x)) [
  | inl n ↦ ground (arith, eq_iff t.id x)
  | inr (later, e) ↦ by_id-id steps x (e ∙ (rw e at h))
]

any_bad-agree :
    (a b : Plan) (ds seen : List String)
    → AllIn ds seen
    → ((x : String)
        → contains x seen ≡ true
        → lookup x a.step_status_by_id ≡ lookup x b.step_status_by_id)
    → any_bad a ds ≡ any_bad b ds
any_bad-agree a b [] seen m h = refl
any_bad-agree a b (d ∷ ds) seen m h = ground (arith, any_bad-agree a b ds seen m.1 h, h d m.0)

some_inj : {a b : List String} → some a ≡ some b → a ≡ b
some_inj p = cc

ok_inj : {a b : Plan} → ok a ≡ ok b → a ≡ b
ok_inj p = cc

either :
    {p : Plan} (C : Type 0) (b : Bool) (m n : Raises Plan)
    → (if b then m else n) ≡ ok p
    → (m ≡ ok p → C)
    → (n ≡ ok p → C)
    → C
either C true m n h f g = f h
either C false m n h f g = g h

any_bad_none : (a : Plan) (ds : List String) → a.step_status_by_id ≡ [] → any_bad a ds ≡ false
unfolding lookup
any_bad_none a [] e = refl
any_bad_none a (d ∷ ds) e = ground (arith, any_bad_none a ds e)

module _ (steps : List Step) (preflight : Step → List String → List String → Raises StepResult)
    (settled : (step : Step) (assumed refs : List String) (r : StepResult)
      → preflight step assumed refs ≡ ok r
      → (r.status == "deferred") ≡ false) where
  -- The first step of an order, and the rest of the loop.
  record Turn (x : String) (order : List String) (plan p : Plan) : Type 0 where
    step : Step
    next : Plan
    found : by_id steps x ≡ some step
    effect : Effect step plan next
    rest : plan_steps steps preflight order next ≡ ok p

  turn :
      (x : String) (order : List String) (plan p : Plan)
      → plan_steps steps preflight (x ∷ order) plan ≡ ok p
      → Turn x order plan p
  unfolding plan_steps
  turn x order plan p h = elim (Option-cases (by_id steps x)) [
    | inl n ↦ absurd (ground (arith, n))
    | inr (s, e) ↦
        >>=-elim_ok (plan_step steps preflight s plan) _ (rw (e, plan_steps) at h) λ next now later.
          record {
            step = s;
            next = next;
            found = e;
            effect = plan_step-Effect steps preflight settled s plan next now;
            rest = later;
          }
  ]

  Turn-status :
      (x : String) (order : List String) (plan p : Plan) (t : Turn x order plan p) (y : String)
      → lookup y t.next.step_status_by_id
        ≡ (if x == y then some t.effect.status else lookup y plan.step_status_by_id)
  Turn-status x order plan p t y =
      rw t.effect.noted
        (rw (by_id-id steps x t.found) (lookup-insert x y t.effect.status plan.step_status_by_id))

  -- A step that the order does not name keeps its status.
  untouched :
      (order : List String) (plan p : Plan)
      → plan_steps steps preflight order plan ≡ ok p
      → (y : String) → contains y order ≡ false
      → lookup y p.step_status_by_id ≡ lookup y plan.step_status_by_id
  unfolding plan_steps
  untouched [] plan p h y n = ground (arith)
  untouched (x ∷ order) plan p h y n =
      let t = turn x order plan p (unfold plan_steps in h) in
      let later = untouched order t.next p t.rest y (ground arith) in
      later ∙ Turn-status x order plan p t y ∙ ground (arith, eq_iff x y, eq_iff y x)

  deferred-InOrder :
      (seen order : List String) (plan p : Plan)
      → InOrder (requires_of steps) seen order
      → distinct order ≡ true
      → ((x : String) → contains x seen ≡ true → contains x order ≡ false)
      → plan_steps steps preflight order plan ≡ ok p
      → (x : String) (deps : List String) → contains x order ≡ true
      → requires_of steps x ≡ some deps
      → has_status p "deferred" x ≡ any_bad p deps
  deferred-InOrder seen [] plan p o d fresh h x deps m k = ground arith
  deferred-InOrder seen (y ∷ order) plan p o d fresh h x deps m k = elim (Bool-cases (y == x)) [
    | inl e ↦ here e
    | inr n ↦
        deferred-InOrder (seen ++ y ∷ []) order t.next p o.1 (ground arith)
          (λ z z_seen. ground (arith, contains-append z seen (y ∷ []), fresh z, eq_iff z y)) t.rest
          x deps (ground (arith, eq_iff x y, eq_iff y x)) k
  ]
    where
      t : Turn y order plan p
      t = turn y order plan p h

      before :
          (z : String)
          → contains z seen ≡ true
          → lookup z p.step_status_by_id ≡ lookup z plan.step_status_by_id
      before z z_seen = untouched (y ∷ order) plan p h z (fresh z z_seen)

      own_deps : (y == x) ≡ true → t.step.requires ≡ deps
      own_deps e = unfold requires_of in ground (arith, t.found, k, eq_iff y x)

      here : (y == x) ≡ true → has_status p "deferred" x ≡ any_bad p deps
      here e =
          let later = untouched order t.next p t.rest x (ground (arith, eq_iff y x)) in
          let own = Turn-status y order plan p t x in
          let all_in : AllIn deps seen =
            subst (λ ds. AllIn ds seen)
              (some_inj (sym o.0.known ∙ ap (requires_of steps) ((eq_iff y x).0 e) ∙ k)) o.0.met in
          let agree = any_bad-agree p plan deps seen all_in before in
          ground (arith, t.effect.deferral, own_deps e)

  quiet : Plan → Bool
  quiet plan = list_empty plan.required_failures && list_empty plan.optional_failures

  none_bad-step :
      (x : String) (order : List String) (plan p : Plan) (t : Turn x order plan p)
      → ((quiet plan ≡ true) → (y : String) → is_bad plan y ≡ false)
      → quiet t.next ≡ true
      → (y : String) → is_bad t.next y ≡ false
  unfolding quiet
  none_bad-step x order plan p t before q y =
      let own = Turn-status x order plan p t y in
      let old = before (t.effect.kept q) in
      let fine = none_bad-any plan t.step.requires old in
      ground (arith, t.effect.failures, t.effect.deferral, old y)
    where
      none_bad-any :
          (plan : Plan) (ds : List String)
          → ((y : String) → is_bad plan y ≡ false)
          → any_bad plan ds ≡ false
      none_bad-any plan [] f = refl
      none_bad-any plan (d ∷ ds) f = ground (arith, f d, none_bad-any plan ds f)

  none_bad :
      (order : List String) (plan p : Plan)
      → plan_steps steps preflight order plan ≡ ok p
      → ((quiet plan ≡ true) → (y : String) → is_bad plan y ≡ false)
      → quiet p ≡ true
      → (y : String) → is_bad p y ≡ false
  unfolding plan_steps
  none_bad [] plan p h before q y =
      let same = ok_inj h in subst (λ r. is_bad r y ≡ false) same (before (rw same q) y)
  none_bad (x ∷ order) plan p h before q y =
      let t = turn x order plan p (unfold plan_steps in h) in
      none_bad order t.next p t.rest (none_bad-step x order plan p t before) q y

preflight_settled :
    (env : StepEnv) (step : Step) (assumed refs : List String) (r : StepResult)
    → preflight_step env step assumed refs ≡ ok r
    → (r.status == "deferred") ≡ false
preflight_settled env step assumed refs r h =
    let c = preflight_step-Consistent env step assumed refs h in
    ground (
      arith,
      c.outcome,
      eq_iff r.status "deferred",
      eq_iff "ready" "deferred",
      eq_iff "skipped" "deferred",
      eq_iff "blocked" "deferred",
    )

module _ (env : StepEnv) (steps : List Step) (collections_error : String) (order : List String)
    {p : Plan}
    (h : compute_preflight steps (preflight_step env) collections_error order ≡ ok p) where
  by_start :
      (C : Type 0)
      → (plan_steps steps (preflight_step env) order empty_plan ≡ ok p → C)
      → (p.step_status_by_id ≡ [] → list_empty p.required_failures ≡ false → C)
      → C
  unfolding compute_preflight
  by_start C run early =
      either C (uses_linux steps && not (is_empty collections_error)) (ok refused)
        (plan_steps steps (preflight_step env) order empty_plan) h
        (λ e. let same : refused ≡ p = ok_inj e in early (rw (← same) refl) (rw (← same) refl)) run
    where
      refused : Plan
      refused = record empty_plan {
        step_results = controller_result collections_error ∷ [];
        required_failures = "ansible_controller" ∷ [];
      }

  -- In a preflight of steps in an order of theirs, a step is deferred exactly if some step that it
  -- requires is blocked or deferred: a failure reaches everything downstream of it, and nothing
  -- else is deferred.
  pub deferred_iff :
      IsOrder steps order
      → (x : String) (deps : List String) → contains x order ≡ true
      → requires_of steps x ≡ some deps
      → has_status p "deferred" x ≡ any_bad p deps
  unfolding lookup
  deferred_iff o x deps m k =
      by_start _
        (λ run.
          deferred-InOrder steps (preflight_step env) (preflight_settled env) [] order empty_plan p
            o.in_order o.no_repeats (λ z n. ground arith) run x deps m k)
        (λ no_status _. ground (arith, any_bad_none p deps no_status))

  -- A preflight whose two lists of failures are empty has no blocked and no deferred step.
  pub success-none_bad :
      p.required_failures ≡ [] → p.optional_failures ≡ [] → (x : String) → is_bad p x ≡ false
  unfolding quiet lookup
  success-none_bad r o x =
      by_start _
        (λ run.
          none_bad steps (preflight_step env) (preflight_settled env) order empty_plan p run
            (λ _ y. refl) (ground (arith, r, o)) x)
        (λ _ failed. absurd (ground (arith, r)))
