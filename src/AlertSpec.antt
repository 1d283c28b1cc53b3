-- ===== src/AlertSpec.antt =====
-- internal/alertspec/catalog.go: the metrics that a rule can watch, and what makes a rule valid.
-- `Extract` has the registry of metrics and operators, `Rules` the normalization of rules, `Laws`
-- what they promise.
pub mod Extract
pub mod Rules
pub mod Passing
pub mod Laws
