-- ===== src/Planner.antt =====
-- The execution of plans: `ExecutionStep` of src/planner/models/planner.py and `PlannerOrchestrator`
-- of src/planner/orchestration.py.
pub mod Step
pub mod Sort
pub mod Execution
mod Tests
