-- ===== src/Text.antt =====
-- What the labs use of the packages strings, bytes, unicode and strconv, over byte lists.
pub mod Split
pub mod Space
pub mod Number
pub mod FilePath
pub mod Signed
pub mod Words
pub mod Scan
