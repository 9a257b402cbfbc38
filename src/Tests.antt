-- ===== src/Tests.antt =====
-- Runs of the definitions on small inputs, and the theorems at inputs where their hypotheses hold.
mod Buckets
mod Heaps
mod Blocks
mod Links
mod Cluster
mod Wire
mod Trees
mod Joins
mod Joined
mod Created
mod Writes
mod Pairs
mod Tablets
mod Traffic
mod Calls
mod Datagrams
