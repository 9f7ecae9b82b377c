-- ===== src/StateMachine.antt =====
-- agent/orchestration/asl.py: the local executor of the Amazon States Language. A definition is
-- given in the shape that `validate` accepts, and a path as the parts that its dots separate.
pub mod Paths
pub mod Handlers
pub mod Definition
pub mod Attempts
pub mod Run
pub mod Bounds
pub mod Approx
pub mod Results
mod Acyclic
mod Targets
pub mod Ending
pub mod Retries
pub mod Iterations
pub mod Fuel
mod Tests
