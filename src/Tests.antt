-- ===== src/Tests.antt =====
-- Runs of the models on concrete data, at which the theorems that have conditions are applied.
mod Setting
mod Songs
mod Sites
mod Blocks
mod Database
mod Chat
mod Link
mod Orders
mod Messages
mod Channel
mod Timers
mod Pipeline
mod Whole
mod Restart
mod Requests
mod Start
