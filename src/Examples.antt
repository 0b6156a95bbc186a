-- ===== src/Examples.antt =====
-- The theorems at concrete inputs.
mod Runs
mod Workers
mod Sessions
mod Devices
mod Attempts
mod Beats
mod Coverage
mod Assessments
mod Codes
mod Batches
mod Requests
mod Launches
mod Boots
mod Tally
mod Reports
mod Consents
mod Guards
mod Stored
mod Jobs
mod Waits
mod Vaults
mod Picks
