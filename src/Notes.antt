-- ===== src/Notes.antt =====
-- The release notes tool, hack/tools/release/notes.go: it sorts the merge commits since a tag by
-- the mark at the head of their titles and prints them section by section.
pub mod GoText
pub mod Commits
pub mod Sections
pub mod Report
pub mod Sorting
pub mod Reading
pub mod Scan
pub mod RoundTrip
pub mod Marks
pub mod Lines
