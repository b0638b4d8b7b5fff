-- ===== src/Tests.antt =====
-- Runs of the modelled code at concrete inputs, at which the theorems apply.
mod Sample
mod Alerts
mod Pipeline
mod WorkerRun
mod Notifications
mod Processor
mod Frigate
mod Ingest
mod Bundles
mod Http
mod Plugins
