-- ===== src/Contracts.antt =====
-- packages/contracts: the document library.
pub mod Status
pub mod MergePatch
pub mod QualificationPolicy
pub mod Canonical
pub mod McapObservations
pub mod McapCrc
