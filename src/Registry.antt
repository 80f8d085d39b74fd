-- ===== src/Registry.antt =====
-- The operation registry (src/aar/runtime/registry.py).
pub mod Schema
pub mod Pages
pub mod Paging
pub mod Cursors
pub mod Reading
pub mod Access
pub mod Runtime
pub mod Acceptance
pub mod Lifecycle
pub mod Workbench
pub mod Fence
pub mod Queueing
pub mod Claims
pub mod Attempts
pub mod Sweep
pub mod Cancel
pub mod History
pub mod Effects
pub mod Advancing
pub mod Transitions
pub mod Untouched
pub mod Restart
pub mod Outcomes
pub mod Accepting
pub mod Claiming
pub mod Sweeping
pub mod Calls
pub mod Reachability
pub mod Fencing
pub mod Replaying
pub mod Renewal
pub mod Committing
pub mod Settling
pub mod Verdicts
pub mod Waiting
pub mod Holdings
pub mod Candidates
pub mod Cancellable
pub mod Cancelling
pub mod Supervisors
pub mod Ranks
pub mod Orphans
pub mod Workers
pub mod Visits
pub mod Overdue
pub mod Sparing
