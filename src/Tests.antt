-- ===== src/Tests.antt =====
-- Runs of the modelled functions on small inputs.
mod Pkgvers
mod Queue
mod FileTables
mod Removals
mod Systems
mod Trees
mod Breakages
mod Lines
mod States
mod Orphanage
mod JoinedPaths
mod Binpkgs
mod Clashes
