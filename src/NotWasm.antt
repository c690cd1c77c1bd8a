-- ===== src/NotWasm.antt =====
-- libjankscripten/src/notwasm: the lower intermediate language.
pub mod Types
pub mod Operators
pub mod Syntax
pub mod Check
pub mod Walk
pub mod Intern
pub mod FromJanky
pub mod Gotos
