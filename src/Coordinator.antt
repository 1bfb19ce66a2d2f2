-- ===== src/Coordinator.antt =====
-- The dispatch loop (agents/coordinator.py).
pub mod State
pub mod Effects
pub mod Assembly
pub mod Handlers
pub mod Advance
pub mod Reply
pub mod Loop
pub mod Tick
pub mod Invariant
pub mod Measure
pub mod Progress
pub mod Visits
pub mod Rounds
pub mod Start
pub mod Liveness
pub mod Routing
pub mod Table
pub mod Tracking
pub mod Sweep
pub mod Ticks
pub mod Entering
pub mod Persist
pub mod Artifact
pub mod Replies
pub mod Keeps
pub mod Starts
pub mod Origins
pub mod Settings
pub mod Deadlines
pub mod Fresh
pub mod Reach
pub mod Running
pub mod Driven
pub mod Results
mod Samples
mod Tests
