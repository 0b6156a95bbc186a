-- ===== src/Store.antt =====
-- server/store.js: the sessions of the local store. Their timing, their feed of activities, their findings and
-- what loading them after a restart does. Times are numbers; writing the file and the events are left out.
pub mod Timing
pub mod Feed
pub mod Boot
pub mod Findings
