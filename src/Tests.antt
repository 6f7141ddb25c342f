-- ===== src/Tests.antt =====
-- Runs of the handlers on a concrete database and storage, and applications of the theorems to them.
mod Fixture
mod Completion
mod Requests
mod Plans
mod Sharing
mod Versions
mod Tree
mod Accounts
mod Staff
mod Edge
mod Fields
mod Background
mod Browser
