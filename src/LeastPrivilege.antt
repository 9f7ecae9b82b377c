-- ===== src/LeastPrivilege.antt =====
-- agent/least_privilege.py: narrower candidates for an over-broad identity policy. `str.lower` and
-- `fnmatch.fnmatchcase` are parameters of the code that calls them, as are the AWS client, the
-- diffs and the scan of the source for boto3 calls.
pub mod Documents
pub mod Candidates
pub mod Narrow
pub mod Attempts
pub mod Recommend
mod Removed
pub mod Contained
pub mod Granted
pub mod Offers
pub mod Chosen
pub mod Kept
pub mod Named
pub mod Waiting
mod Tests
