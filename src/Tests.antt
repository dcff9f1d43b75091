-- ===== src/Tests.antt =====
-- Concrete runs of the models, and the theorems at concrete inputs.
pub mod Data
pub mod Clocks
pub mod Replica
pub mod System
pub mod PartialSyn
pub mod Driver
pub mod Network
pub mod Objects
pub mod Graph
pub mod Complex
pub mod Crdt
pub mod Ecros
pub mod EcrosCases
