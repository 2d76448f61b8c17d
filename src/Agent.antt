-- ===== src/Agent.antt =====
-- internal/agent: the reconciler of one node, over the Docker driver as a parameter.
pub mod Docker
pub mod Health
pub mod Order
pub mod Ensure
pub mod Reconcile
