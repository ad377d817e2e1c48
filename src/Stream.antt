-- ===== src/Stream.antt =====
-- What watches the output of the device: the boot tracker, the autoresponder and the expect engine.
pub mod Matcher
pub mod Posix
pub mod Window
pub mod Boot
pub mod Expect
pub mod Autoresponder
pub mod Anomaly
