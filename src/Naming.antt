-- ===== src/Naming.antt =====
-- server/cawl_core/naming.py: environment ids, hostname labels and lifetimes. Texts are code
-- points, and lower-casing, stripping and character classes are those of Python on ASCII text.
pub mod Labels
pub mod Lifetimes
