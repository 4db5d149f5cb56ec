-- ===== src/Tests.antt =====
-- Runs of the model at concrete inputs, and each theorem at an input that meets its hypotheses.
mod Screens
mod Projection
mod Plans
mod Profiles
mod DragAndDrop
mod Accounts
mod Songs
mod Sync
mod Imports
mod SettingsFile
