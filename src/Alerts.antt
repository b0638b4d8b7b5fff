-- ===== src/Alerts.antt =====
-- backend/src/nanexus_event_intelligence/alerts: deterministic shadow alert evaluation. The
-- definitions stand in Models, Evaluator and Policy, the proofs in the others.
pub mod Models
pub mod Evaluator
pub mod Policy
pub mod Handler
pub mod RuleOrder
pub mod FirstMatch
pub mod Community
