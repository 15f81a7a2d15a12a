-- ===== src/Grades.antt =====
-- The grade book of fifo/main.c: a shell whose commands run in child processes on text files.
pub mod Text
pub mod World
pub mod Students
pub mod Compare
pub mod Commands
pub mod Shell
mod InsertionSort
mod Tests
