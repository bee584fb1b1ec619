-- ===== src/Client.antt =====
-- The client's policy: src/client.rs.
pub mod Seen
pub mod Matrix
pub mod Patch
pub mod Request
pub mod Verdict
pub mod Handle
pub mod Serve
pub mod Answered
pub mod Served
pub mod Backed
pub mod Answers
pub mod Exact
pub mod Informed
pub mod PatchShown
pub mod PatchExact
pub mod Quota
pub mod Admission
pub mod Capacity
pub mod Sanitize
pub mod Shown
pub mod Token
pub mod Hidden
pub mod Permissions
pub mod Exposed
pub mod Described
pub mod Counted
pub mod Tests
pub mod RequestTests
