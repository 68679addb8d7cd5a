-- ===== src/Frontend/Orderly.antt =====
-- The passes of the main loops of cui/main.c and cli/main.c keep the order of events.
pub mod Runs
pub mod Console
pub mod Dialogs
