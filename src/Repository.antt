-- ===== src/Repository.antt =====
-- backend/internal/repository: the tables of problems, test cases and submissions. The SQL that the
-- code sends is a function on lists of rows; what the database decides is an argument.
pub mod Rows
pub mod Problems
pub mod TestCases
pub mod Submissions
pub mod Selected
pub mod Updates
