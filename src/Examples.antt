-- ===== src/Examples.antt =====
-- Tests of the model at concrete inputs, and the theorems at inputs that meet their hypotheses.
pub mod Captures
pub mod Data
pub mod Sessions
pub mod Rules
pub mod Indexes
pub mod Services
pub mod Machines
pub mod Queries
pub mod Browsers
pub mod Recorded
pub mod Handouts
pub mod Catalogues
pub mod Streams
pub mod Readbacks
pub mod Displays
