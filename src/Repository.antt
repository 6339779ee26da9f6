-- ===== src/Repository.antt =====
-- internal/repository: one module for each repository.
pub mod Accounts
pub mod Administration
pub mod Board
pub mod Errors
pub mod Requests
pub mod Sample
pub mod Untouched
pub mod Statements
