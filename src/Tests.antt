-- ===== src/Tests.antt =====
-- Runs of the theorems at concrete inputs.
mod History
mod Text
mod Broker
mod Sending
mod Client
mod Reopen
mod Link
mod Regex
mod Stream
