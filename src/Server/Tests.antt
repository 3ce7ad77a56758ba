-- ===== src/Server/Tests.antt =====
-- Runs of the server of server/, and its theorems at these.
mod Scenes
mod Examples
mod Connection
mod Failures
