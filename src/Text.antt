-- ===== src/Text.antt =====
-- The text that the address printers write: character buffers, and what `snprintf` prints.
pub mod Buffer
pub mod Decimal
pub mod Snprintf
pub mod Codes
pub mod Hex
pub mod Words
