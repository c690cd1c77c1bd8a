-- ===== src/Shared.antt =====
-- libjankscripten/src/shared: identifiers, the JankyScript types, coercions.
pub mod Ident
pub mod Types
pub mod Coercions
