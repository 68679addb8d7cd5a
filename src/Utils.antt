-- ===== src/Utils.antt =====
-- libdevcheck/utils.c, as far as it computes with text.
pub mod Comma
pub mod AtaString
