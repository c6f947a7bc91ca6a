-- ===== src/Widgets.antt =====
-- The generic components of fe/src/components/ that keep a state of their own.
pub mod Wizard
pub mod Table
