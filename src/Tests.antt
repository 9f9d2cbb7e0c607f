-- ===== src/Tests.antt =====
-- Examples of the theorems and the runs that they stand on.
mod Vault
mod Arbitration
mod Restoring
mod Planning
mod Merging
mod Serving
mod Ignoring
mod Scanning
mod Versions
