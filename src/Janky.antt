-- ===== src/Janky.antt =====
-- libjankscripten/src/jankyscript: the typed intermediate language.
pub mod CheckCoercion
pub mod Syntax
pub mod Check
