-- ===== src/Editor.antt =====
-- The line editor of src/zc_source_editor.h.
pub mod Text
pub mod Input
pub mod View
pub mod File
pub mod Command
pub mod Edits
pub mod Effects
pub mod Valid
pub mod Meaning
pub mod Numbers
pub mod Closing
pub mod Reopen
pub mod Tests
