-- ===== src/Workflow/Laws.antt =====
-- What the gates, the stages and the pipeline of src/workflow do.
pub mod Retrieval
pub mod Running
pub mod Attributed
pub mod Produced
pub mod Emitted
pub mod Promoted
pub mod Extracted
pub mod Trail
pub mod EarlyLoops
pub mod Loops
pub mod Segments
pub mod Cycle
pub mod Grouped
pub mod Recorded
pub mod Concrete
pub mod Observed
pub mod Unreachable
pub mod Reachability
pub mod Postponing
pub mod Kept
