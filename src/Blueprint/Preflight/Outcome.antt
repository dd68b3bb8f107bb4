-- ===== src/Blueprint/Preflight/Outcome.antt =====
-- What the result of a step's preflight (hyops/blueprint/planner.py) is to satisfy, and what a stage
-- of the preflight passes on.
use hybridops_core.Prelude.{
  String, ◌≡◌, Bool, true, false, not, any_of, any_of-snoc, arith, refl, ◌⊎◌, inl, inr, ◌∙◌,
  if◌then◌else◌,
}
use hybridops_core.Raises.{Raises, ok, value_error, other_error, ◌>>=◌}
use hybridops_core.Blueprint.Step.{Step}
use hybridops_core.Blueprint.Preflight.{Check, StepResult, add_check, block, caught}

-- Some check of the result failed.
abbrev pub has_failed : StepResult → Bool
has_failed r = any_of (λ c. not c.ok) r.checks

-- The status is ready, skipped or blocked, and blocked exactly if some check failed; the step's own
-- keys are those of the step.
pub record Consistent (step : Step) (r : StepResult) : Type 0 where
  pub same_id : r.id ≡ step.id
  pub same_optional : r.optional ≡ step.optional
  pub outcome :
      (r.status ≡ "ready") × (has_failed r ≡ false)
      ⊎ (r.status ≡ "skipped") × (has_failed r ≡ false)
      ⊎ (r.status ≡ "blocked") × (has_failed r ≡ true)

-- What holds between two checks that passed.
pub record Clean (step : Step) (r : StepResult) : Type 0 where
  pub same_id : r.id ≡ step.id
  pub same_optional : r.optional ≡ step.optional
  pub ready : r.status ≡ "ready"
  pub passed : has_failed r ≡ false

pub Clean-Consistent : (step : Step) (r : StepResult) → Clean step r → Consistent step r
Clean-Consistent step r c = record {
  same_id = c.same_id;
  same_optional = c.same_optional;
  outcome = inl (c.ready, c.passed);
}

pub Clean-add :
    (step : Step) (name detail : String) (r : StepResult)
    → Clean step r
    → Clean step (add_check name true detail r)
Clean-add step name detail r c = ground (
  arith,
  any_of-snoc (λ (k : Check). not k.ok) r.checks
      (record { name = name; ok = true; detail = detail }),
)

pub block-Consistent :
    (step : Step) (name detail : String) (r : StepResult)
    → Clean step r
    → Consistent step (block name detail r)
block-Consistent step name detail r c = record {
  same_id = c.same_id;
  same_optional = c.same_optional;
  outcome = inr (
      inr (
        refl,
        any_of-snoc (λ (k : Check). not k.ok) r.checks
              (record { name = name; ok = false; detail = detail })
            ∙ ground (arith, c.passed),
      ));
}

-- What a stage returns is consistent.
unfoldable pub Sound : Step → Raises StepResult → Type 0
Sound step (ok r) = Consistent step r
Sound step (value_error e) = Unit
Sound step (other_error e) = Unit

pub Sound-ok : (step : Step) (r : StepResult) → Consistent step r → Sound step (ok r)
unfolding Sound
Sound-ok step r c = c

pub Sound-caught :
    {A : Type 0} (step : Step) (m : Raises A) (f : A → Raises StepResult)
    (g : String → Raises StepResult)
    → ((a : A) → Sound step (f a))
    → ((e : String) → Sound step (g e))
    → Sound step (caught m f g)
Sound-caught step (ok a) f g hf hg = hf a
Sound-caught step (value_error e) f g hf hg = hg e
Sound-caught step (other_error e) f g hf hg = hg e

pub Sound-bind :
    {A : Type 0} (step : Step) (m : Raises A) (f : A → Raises StepResult)
    → ((a : A) → Sound step (f a))
    → Sound step (m >>= f)
unfolding Sound
Sound-bind step (ok a) f hf = hf a
Sound-bind step (value_error e) f hf = tt
Sound-bind step (other_error e) f hf = tt

pub Sound-if :
    (step : Step) (b : Bool) (m n : Raises StepResult)
    → Sound step m
    → Sound step n
    → Sound step (if b then m else n)
Sound-if step true m n hm hn = hm
Sound-if step false m n hm hn = hn
