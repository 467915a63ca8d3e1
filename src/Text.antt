-- ===== src/Text.antt =====
-- Texts: patterns that are plain texts (src/regex_has_no_special_characters.c).
pub mod Patterns
pub mod Like
pub mod Generated
pub mod Escaping
