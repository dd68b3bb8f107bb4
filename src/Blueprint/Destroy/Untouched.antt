-- ===== src/Blueprint/Destroy/Untouched.antt =====
-- The commands that a destroy run (hyops/blueprint/command.py) never calls: those of the steps that
-- are kept or that their parent destroys.
use hybridops_core.Prelude.{
  ◌≡◌, refl, ap, subst, String, Bool, true, false, List, [], ◌∷◌, Option, none, some, ◌||◌, not,
  arith, Bool-cases, inl, inr, if◌then◌else◌,
}
use hybridops_core.Text.{is_empty, strip}
use hybridops_core.Raises.{Raises, ok, value_error, other_error, ◌>>=◌}
use hybridops_core.State.Store.{Disk}
use hybridops_core.Blueprint.Step.{Step, by_id}
use hybridops_core.Blueprint.Destroy.Children.{DestroyRun, close_pending}
use hybridops_core.Blueprint.Destroy.{
  Attempt, DestroyEnv, run_command, destroy_by_state, destroy_step, destroy_steps, destroy_run,
  as_destroy, start_run,
}

-- The step is kept, or another step destroys it.
abbrev pub is_spared : Step → Bool
is_spared step = step.retain_on_destroy || not (is_empty (strip step.destroy_subsumed_by))

if_else-same :
    {A : Type 0} (b : Bool) (x : A) {y y' : A}
    → y ≡ y'
    → (if b then x else y) ≡ (if b then x else y')
if_else-same true x e = refl
if_else-same false x e = e

>>=-same :
    {A B : Type 0} (m m' : Raises A) {f g : A → Raises B}
    → m ≡ m'
    → ((a : A) → f a ≡ g a)
    → (m >>= f) ≡ (m' >>= g)
>>=-same {A} {B} m m' {f} {g} e agree = subst (λ n. (m >>= f) ≡ (n >>= g)) e (each m)
  where
    each : (n : Raises A) → (n >>= f) ≡ (n >>= g)
    each (ok a) = agree a
    each (value_error error) = refl
    each (other_error error) = refl

module _ (steps : List Step) (env : DestroyEnv) (skip_archive fail_fast : Bool)
    (other : Step → Disk → Attempt × Disk)
    (agree : (step : Step) (disk : Disk)
      → is_spared step ≡ false
      → other (as_destroy step) disk ≡ env.run_step (as_destroy step) disk) where
  swapped : DestroyEnv
  swapped = record env { run_step = other }

  run_command-same :
      (step : Step) (run : DestroyRun)
      → is_spared step ≡ false
      → run_command swapped fail_fast step run ≡ run_command env fail_fast step run
  unfolding run_command swapped
  run_command-same step run own = rw (agree step run.disk own)

  destroy_by_state-same :
      (step : Step) (run : DestroyRun)
      → step.retain_on_destroy ≡ false
      → destroy_by_state steps swapped skip_archive fail_fast step run
        ≡ destroy_by_state steps env skip_archive fail_fast step run
  unfolding destroy_by_state swapped
  destroy_by_state-same step run not_kept =
      elim (Bool-cases (is_empty (strip step.destroy_subsumed_by))) [
        | inl own ↦ let same = run_command-same step run (ground arith) in rw (own, same)
        | inr child ↦ rw child
      ]

  destroy_step-same :
      (step : Step) (run : DestroyRun)
      → destroy_step steps swapped skip_archive fail_fast step run
        ≡ destroy_step steps env skip_archive fail_fast step run
  unfolding destroy_step
  destroy_step-same step run = elim (Bool-cases step.retain_on_destroy) [
    | inl kept ↦ rw kept
    | inr not_kept ↦ rw (destroy_by_state-same step run not_kept)
  ]

  destroy_steps-same :
      (order : List String) (run : DestroyRun)
      → destroy_steps steps swapped skip_archive fail_fast order run
        ≡ destroy_steps steps env skip_archive fail_fast order run
  unfolding destroy_steps
  destroy_steps-same [] run = refl
  destroy_steps-same (step_id ∷ order) run =
      if_else-same run.stopped (ok run)
        (found (λ next. destroy_steps-same order next) (by_id steps step_id))
    where
      found :
          ((next : DestroyRun)
            → destroy_steps steps swapped skip_archive fail_fast order next
              ≡ destroy_steps steps env skip_archive fail_fast order next)
          → (o : Option Step)
          → (elim o [
            | none ↦ other_error step_id
            | some step ↦
                destroy_step steps swapped skip_archive fail_fast step run
                >>= destroy_steps steps swapped skip_archive fail_fast order
          ])
            ≡ (elim o [
              | none ↦ other_error step_id
              | some step ↦
                  destroy_step steps env skip_archive fail_fast step run
                  >>= destroy_steps steps env skip_archive fail_fast order
            ])
      found later none = refl
      found later (some step) = >>=-same _ _ (destroy_step-same step run) later

-- A destroy run is the same whatever the commands of the steps that are kept, or that another step
-- destroys, would do: it never calls them.
pub destroy_run-spared :
    (steps : List Step) (env : DestroyEnv) (skip_archive fail_fast : Bool)
    (other : Step → Disk → Attempt × Disk)
    → ((step : Step) (disk : Disk)
        → is_spared step ≡ false
        → other (as_destroy step) disk ≡ env.run_step (as_destroy step) disk)
    → (order : List String) (disk : Disk)
    → destroy_run steps (record env { run_step = other }) skip_archive fail_fast order disk
      ≡ destroy_run steps env skip_archive fail_fast order disk
unfolding destroy_run swapped
destroy_run-spared steps env skip_archive fail_fast other agree order disk =
    ap (λ m. m >>= λ run. ok (close_pending run))
      (destroy_steps-same steps env skip_archive fail_fast other agree order (start_run disk))
