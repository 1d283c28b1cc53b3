-- ===== src/Alert.antt =====
-- internal/alert: the alert service. `Compile` is compiler.go, `Runtime` and `Evaluate` are
-- runtime.go, `Process` with its `Environment` is service_eval.go, `Saving` state.go, and `Retry` has
-- what follows a failed notification.
pub mod Compile
pub mod Runtime
pub mod Evaluate
pub mod Environment
pub mod Process
pub mod Saving
pub mod Retry
pub mod Samples
mod Tests
