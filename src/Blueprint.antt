-- ===== src/Blueprint.antt =====
-- The blueprint subsystem (hyops/blueprint): the steps of a blueprint, their order, the checks of
-- their references, the policy, the authorities and the contracts, the inputs of a step, and the
-- preflight of a whole blueprint.
pub mod Step
pub mod Order
pub mod Upstream
pub mod References
pub mod Preflight
pub mod Policy
pub mod Contracts
pub mod Inputs
pub mod Authorities
pub mod Plan
pub mod Destroy
mod Examples
mod ContractExamples
mod DestroyExamples
