-- ===== src/Tests.antt =====
-- Concrete inputs at which the theorems are applied, and runs of the model on them.
mod Yaml
mod Tokens
mod Caches
mod Sites
mod Configs
mod Bucket
mod Pushes
mod Requests
mod Pages
mod Disks
mod Packs
mod Surfaces
mod Clients
mod Daemons
mod Revocations
