-- ===== src/Tests.antt =====
-- The theorems at concrete stores and requests: two addresses, the first with outputs of 10 and 5.
mod Samples
mod Plenum
mod Ledgers
mod Requests
mod FeeTable
mod Charging
mod Batches
mod Queries
mod Signatures
mod Registry
mod Histories
mod Heaps
mod Hosting
mod Versions
mod Listings
mod Messages
mod Replies
