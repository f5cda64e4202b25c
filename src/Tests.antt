-- ===== src/Tests.antt =====
-- The theorems at concrete inputs, and tests of the definitions.
mod Pipeline
mod Ladder
mod Searches
mod Page
mod Requests
mod Buttons
mod Panels
mod Pages
mod Server
mod Leader
mod Targets
mod Runs
