-- ===== src/Tests.antt =====
-- The theorems at concrete inputs.
mod Crates
mod Data
mod Codes
mod Networks
mod Topics
mod Stores
mod Service
mod Requests
mod Bonuses
mod Samples
mod Fleet
mod Services
mod Trials
mod Links
mod Schedule
mod Database
mod Tables
mod Peers
mod Restarts
mod Starts
