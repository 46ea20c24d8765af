-- ===== src/Tests.antt =====
-- The theorems at concrete inputs, and runs of the model.
mod Sample
mod Client
mod Doors
mod Pages
mod Shared
mod Sites
mod SitePages
mod Plugin
mod Adapter
mod Design
