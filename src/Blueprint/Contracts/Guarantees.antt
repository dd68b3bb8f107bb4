-- ===== src/Blueprint/Contracts/Guarantees.antt =====
-- What a session or its absence says of the contracts of a step (hyops/blueprint/contracts.py).
use hybridops_core.Prelude.{
  String, ◌≡◌, ◌≢◌, ◌⊎◌, inl, inr, true, Option, none, some, List, [], ◌∷◌, arith, eq_iff, ◌==◌,
  sym, ◌∙◌, ap, subst, Bool-cases, refl,
}
use hybridops_core.Text.{strip, lower, or_text}
use hybridops_core.Raises.{ok, >>=-elim_ok, require-eq-ok}
use hybridops_core.Authority.Models.{
  AuthorityRequirement, AuthorityDeclaration, AuthorityObservationPolicy, AuthoritySession,
}
use hybridops_core.Authority.Registry.{Registry}
use hybridops_core.Authority.Clock.{DateTime}
use hybridops_core.Authority.Admission.{Declarations, begin}
use hybridops_core.Authority.Admission.Guarantees.{Admits, begin-Admits}
use hybridops_core.Blueprint.Step.{Step}
use hybridops_core.Blueprint.Policy.{Policy}
use hybridops_core.Blueprint.Contracts.{
  AuthorityEntry, ContractEnv, state_ok, check_states, as_str_list, legacy_authority_contract,
  check_addressing, begin_required, begin_step_contracts, context_of, declare, bind_authority,
}
use hybridops_core.Blueprint.Contracts.Binding.{Carries, Binds}
use hybridops_core.Blueprint.Contracts.Binding.Chosen.{Carries-Binds}

-- Each of the module states is ok, or planned by a step before.
abbrev pub AllStatesOk : ContractEnv → List String → List String → Type 0
AllStatesOk env assumed [] = Unit
AllStatesOk env assumed (ref ∷ refs) =
    (state_ok env assumed ref ≡ true) × AllStatesOk env assumed refs

check_states-AllStatesOk :
    (env : ContractEnv) (assumed refs : List String)
    → check_states env assumed refs ≡ ok tt
    → AllStatesOk env assumed refs
unfolding check_states
check_states-AllStatesOk env assumed [] h = tt
check_states-AllStatesOk env assumed (ref ∷ refs) h =
    let (now, later) = require-eq-ok (state_ok env assumed ref) _ _ h in
    (now, check_states-AllStatesOk env assumed refs later)

-- The addressing mode of a step as the checks read it.
abbrev pub addressing_of : Step → String
addressing_of step = lower (strip (or_text step.contracts.addressing_mode "static"))

module _ (env : ContractEnv) (fromisoformat : String → Option DateTime) (registry : Registry)
    (policy : Policy) (authorities : List (String × AuthorityEntry)) (step : Step)
    (assumed : List String) (observation : Option AuthorityObservationPolicy) where
  -- The facts behind contracts that hold, with the session that they opened.
  pub record Granted (opened : Option AuthoritySession) : Type 0 where
    pub states : AllStatesOk env assumed (as_str_list step.contracts.requires_module_state_ok)
    pub requirement : Option AuthorityRequirement
    pub declarations : Declarations
    pub legacy : Option (AuthorityRequirement × AuthorityDeclaration)
    pub lawful : legacy_authority_contract step.contracts.requires_authority policy ≡ ok legacy
    pub bindings :
        bind_authority legacy step.contracts.requires_authority (declare authorities)
        ≡ (requirement, declarations)
    pub addressing : check_addressing (addressing_of step) requirement ≡ ok tt
    pub begun :
        begin_required env fromisoformat registry requirement declarations assumed observation
        ≡ ok opened

  granted :
      {opened : Option AuthoritySession}
      → begin_step_contracts env fromisoformat registry policy authorities step assumed observation
        ≡ ok opened
      → Granted opened
  unfolding begin_step_contracts
  granted h = >>=-elim_ok (check_states env assumed _) _ h λ _ s h1.
      >>=-elim_ok (legacy_authority_contract step.contracts.requires_authority policy) _ h1
        λ l e h2. >>=-elim_ok (check_addressing (addressing_of step) _) _ h2 λ _ a h3. record {
          states = check_states-AllStatesOk env assumed _ s;
          requirement = _;
          declarations = _;
          legacy = l;
          lawful = e;
          bindings = refl;
          addressing = a;
          begun = h3;
        }

  no_ipam :
      (requirement : Option AuthorityRequirement) (declarations : Declarations)
      → check_addressing (addressing_of step) requirement ≡ ok tt
      → begin_required env fromisoformat registry requirement declarations assumed observation
        ≡ ok none
      → addressing_of step ≢ "ipam"
  unfolding check_addressing begin_required
  no_ipam none ds a b = ground (arith, eq_iff (addressing_of step) "ipam")
  no_ipam (some r) ds a b = ground arith

  -- A session that was opened, its requirement, and the capability that the addressing mode asks for.
  record Opened (requirement : Option AuthorityRequirement) (declarations : Declarations)
      (session : AuthoritySession) : Type 0 where
    chosen : AuthorityRequirement
    same : requirement ≡ some chosen
    begun : Carries session chosen declarations
    admits :
        Admits fromisoformat registry session.requirement declarations
          (context_of env assumed)
          session
    capability : (addressing_of step ≢ "ipam") ⊎ (session.requirement.capability ≡ "inventory_ipam")

  opened_session :
      {session : AuthoritySession} (r : AuthorityRequirement) (declarations : Declarations)
      → check_addressing (addressing_of step) (some r) ≡ ok tt
      → begin fromisoformat registry r declarations (context_of env assumed) observation
        ≡ ok session
      → Opened (some r) declarations session
  unfolding check_addressing
  opened_session {session} r ds a b =
      let admitted =
        begin-Admits fromisoformat registry r ds (context_of env assumed) observation b in
      let same = admitted.same_requirement in
      record {
        chosen = r;
        same = refl;
        begun = record {
          required = same;
          declared = admitted.declared;
          capable = admitted.capability_matches;
        };
        admits =
            subst (λ q. Admits fromisoformat registry q ds (context_of env assumed) session)
              (sym same) admitted;
        capability = elim (Bool-cases (addressing_of step == "ipam")) [
          | inl e ↦
              inr
                (ap (λ q. q.capability) same ∙ ground (arith, eq_iff r.capability "inventory_ipam"))
          | inr e ↦ inl (ground (arith, eq_iff (addressing_of step) "ipam"))
        ];
      }

  opened :
      {session : AuthoritySession} (requirement : Option AuthorityRequirement)
      (declarations : Declarations)
      → check_addressing (addressing_of step) requirement ≡ ok tt
      → begin_required env fromisoformat registry requirement declarations assumed observation
        ≡ ok (some session)
      → Opened requirement declarations session
  unfolding begin_required
  opened none ds a b = absurd (ground arith)
  opened (some r) ds a b =
      >>=-elim_ok (begin fromisoformat registry r ds (context_of env assumed) observation) _ b
        λ s hs e. subst (λ q. Opened (some r) ds q) (opened_inj e) (opened_session r ds a hs)
    where
      opened_inj : {x y : AuthoritySession} → ok (some x) ≡ ok (some y) → x ≡ y
      opened_inj p = cc

  -- When the contracts of a step return without a session, every module state that the step requires
  -- is ok or planned, and the step does not take its addresses from an IPAM.
  pub begin_step_contracts-none :
      begin_step_contracts env fromisoformat registry policy authorities step assumed observation
        ≡ ok none
      → AllStatesOk env assumed (as_str_list step.contracts.requires_module_state_ok)
        × (addressing_of step ≢ "ipam")
  begin_step_contracts-none h =
      let g = granted h in (g.states, no_ipam g.requirement g.declarations g.addressing g.begun)

  -- When the contracts of a step open a session, every module state that the step requires is ok or
  -- planned, the capability is that of an IPAM if the step takes its addresses from one, the session
  -- uses the authority that the step requires, as the blueprint or the policy declares it, and it is
  -- rightful in the run's context.
  pub begin_step_contracts-some :
      {session : AuthoritySession}
      → begin_step_contracts env fromisoformat registry policy authorities step assumed observation
        ≡ ok (some session)
      → AllStatesOk env assumed (as_str_list step.contracts.requires_module_state_ok)
        × ((addressing_of step ≢ "ipam") ⊎ (session.requirement.capability ≡ "inventory_ipam"))
        × Binds policy authorities step.contracts.requires_authority session
        × ((declarations : Declarations) × Admits fromisoformat registry session.requirement
              declarations
              (context_of env assumed)
              session)
  begin_step_contracts-some {session} h =
      let g = granted h in
      let o = opened g.requirement g.declarations g.addressing g.begun in
      let binds =
        Carries-Binds policy authorities session step.contracts.requires_authority g.legacy o.chosen
          g.declarations g.lawful (g.bindings ∙ ap (λ q. (q, g.declarations)) o.same) o.begun in
      (g.states, o.capability, binds, (g.declarations, o.admits))
