-- ===== src/Repo/Tests.antt =====
-- Runs of the repository's object on small states.
mod Data
mod Witnesses
