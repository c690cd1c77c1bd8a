-- ===== src/Lib.antt =====
-- jankscripten compiles JavaScript-like programs to WebAssembly. The JavaScript syntax tree is simplified, turned
-- into JankyScript (types are inferred and coercions inserted), closure-converted, translated to NotWasm, type-checked
-- again, and compiled to WebAssembly, which calls a runtime written in Rust. This library models parts of that
-- pipeline and proves what they promise each other.
--
-- Which file models what (the paths are the repository's):
--   Shared.Ident      libjankscripten/src/shared/id.rs: identifiers and the generator of fresh names
--   Shared.Types      libjankscripten/src/shared/types.rs: the types of JankyScript and their translation
--   Shared.Coercions  libjankscripten/src/shared/coercions.rs: Coercion::new, meta, seq and fun
--   Janky             libjankscripten/src/jankyscript/syntax.rs and type_checking.rs: the language JankyScript and its
--                     type checker, with get_type_by_prefix of shared/methods.rs
--   NotWasm           libjankscripten/src/notwasm/syntax.rs, type_checking.rs, jankyscript/syntax.rs (types of operators)
--                     and rts_function.rs: the language NotWasm and its type checker
--   NotWasm.Walk      libjankscripten/src/notwasm/walk.rs: visitors
--   NotWasm.Intern    libjankscripten/src/notwasm/intern.rs: the layout of static strings, which Runtime.StringPtr reads
--   NotWasm.FromJanky libjankscripten/src/notwasm/from_jankyscript.rs: the translation of JankyScript; Compile has
--                     compile_expr, compile_stmt and compile_function
--   NotWasm.Gotos     libjankscripten/src/notwasm/label_apps.rs and elim_gotos.rs: numbered labels of calls, and gotos
--                     as a flag; compile.rs has both passes commented out
--   Rope              libjankscripten/src/rope.rs
--   StringEscaping    libjankscripten/src/string_escaping.rs: the string that a literal stands for
--   Runtime.ClassList runtime/src/allocator/class_list.rs: hidden classes
--   Runtime.Object    runtime/src/allocator/object_ptr.rs: objects over hidden classes; the values of
--                     runtime/src/any_value.rs and Heap::alloc_object_data of runtime/src/allocator/mod.rs
--   Runtime.StringPtr runtime/src/allocator/string.rs: reading a string at an address
--   Runtime.Gc        runtime/src/allocator/mod.rs, with heap_values.rs, heap_types.rs, env.rs and string.rs beside it: the
--                     heap, its blocks, and what the collector asks of them; Collect marks and sweeps, Allocate has
--                     allocation on demand and the shadow stack
--   Runtime.F64Allocator  runtime/src/allocator/f64_allocator.rs
--   Prelude           tests, lists and results of fallible code that the other files share
-- Each file that models code has child modules with its theorems, and an Examples module that applies them.
--
-- How code is written down: a Result of the source is a value of Result (ok or err), and a panic is the third
-- constructor, panic, or none where nothing but a panic can go wrong. Maps are functions to Option, or lists of their
-- entries where the source iterates over them. Code that updates its argument returns the new value. Numbers are
-- natural numbers; a u16 keeps its wrap-around. Source positions and the text of messages are left out.
--
-- Fuel: Coercion::new recurses on types that do not get smaller, so it is written on fuel, and Shared.Coercions.Fuel
-- gives the fuel that is always enough. The loop of the rope's iterator runs on fuel too, as many units as the
-- rope has nodes and one more, also where the translation reads a rope, and the collector's rounds on one unit more
-- than the memory has blocks. The loop over a literal has one unit for each character. The lookup of a property follows a chain of prototypes, which may be a cycle, on fuel.
--
-- The runtime's memory is a list of cells, and an address is an index into it. In Runtime.Object an
-- insertion that finds no room for its data stops where the source collects and tries again. In Runtime.Gc a block can be freed, and following a pointer to it is an
-- error value; the sizes of Rust's types are parameters (Sizes).
--
-- Parameters: the table of the runtime's functions that Env::new reads is an argument of the NotWasm checker, and the
-- tables of methods and of global names are arguments of the JankyScript checker, as the tables are data of other files.
-- The translation to NotWasm takes the table of methods and the printer of names, the interning of strings their encoding.
--
-- Not modelled: parsers and printers, type inference by a solver, the passes over JavaScript and those over
-- JankyScript between inference and translation, the code generator, the operations on values of the runtime, and the
-- command line.
pub mod Prelude
pub mod Shared
pub mod NotWasm
pub mod Janky
pub mod Rope
pub mod Runtime
pub mod StringEscaping
