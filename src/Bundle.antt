-- ===== src/Bundle.antt =====
-- sourcebundle: building source bundles. `Types` has the data, the diagnostics and what the builder
-- takes from its surroundings; `Builder`, `Registry` and `Resolve` follow builder.go.
pub mod Types
pub mod Builder
pub mod Registry
pub mod Resolve
pub mod Frame
pub mod Once
pub mod Measure
pub mod Find
pub mod Queues
pub mod Placed
pub mod Panics
pub mod Drain
pub mod Idle
pub mod Progress
pub mod Reach
pub mod Finish
pub mod Grown
pub mod Covered
pub mod Complete
pub mod Manifest
pub mod Open
pub mod Lookup
pub mod Paths
pub mod Opening
pub mod Confined
pub mod Digest
pub mod Spelled
pub mod Chosen
pub mod Inverse
pub mod Close
pub mod Closed
pub mod Diagnostics
pub mod Reopened
pub mod Listed
pub mod Prepare
pub mod Prepared
pub mod Ignored
pub mod Referent
mod OpenSamples
mod CloseSamples
mod PrepareSamples
mod Samples
