-- ===== src/Tests.antt =====
-- Runs of the models at concrete inputs, and the theorems at inputs that meet their hypotheses.
mod Blueprint
mod Woodward
mod Retention
mod Release
mod Upgrade
mod Planning
mod Installation
mod Seedbank
mod Rolodex
mod Resin
mod Uploads
mod Bract
mod Execution
