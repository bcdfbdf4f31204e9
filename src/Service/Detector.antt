-- ===== src/Service/Detector.antt =====
-- internal/service/detector.go: the sweep over expired transactions. Its parts are children: the
-- verdict on one transaction, what is queued for it, the alerts, and the sweep. The clock that the
-- store reads is `clock`; `at` is what `d.now()` gives after the start of the sweep. Formatting and
-- encoding are parameters; logs and metrics are left out.
pub mod Verdict
pub mod Queue
pub mod Alerts
pub mod Sweep
pub mod Frames
pub mod Rail
pub mod Reversals
pub mod Notices
pub mod Advice
pub mod Offers
pub mod Race
