-- ===== src/NotWasm/Check/ArraySet.antt =====
-- The array assignment of NotWasm, as its checker treats it.
use jankscripten.Prelude.{◌≡◌, ◌↔◌, ok, >>=-ok}
use jankscripten.NotWasm.Types.{NotWasmType}
use jankscripten.NotWasm.Syntax.{Atom, Expr}
use jankscripten.NotWasm.Check.{Env, ensure}
use jankscripten.NotWasm.Check.Atoms.{type_check_atom}
use jankscripten.NotWasm.Check.Exprs.{type_check_expr}
use jankscripten.NotWasm.Check.Typing.{AtomHas}
use jankscripten.NotWasm.Check.AtomTests.{ensure_self}
use jankscripten.NotWasm.Check.AtomTyping.{ensured, type_check_atom_sound}
use jankscripten.NotWasm.Check.AtomComplete.{type_check_atom_complete}

abbrev pub HasSomeType : Env → Atom → Type 0
HasSomeType Γ a = (t : NotWasmType) × AtomHas Γ a t

array_set-accepted :
    (Γ : Env) (a_arr a_idx a_val : Atom) (e' : Expr)
    → type_check_expr Γ (Expr.array_set a_arr a_idx a_val) ≡ ok (NotWasmType.any, e')
    → HasSomeType Γ a_arr × AtomHas Γ a_idx NotWasmType.i32 × HasSomeType Γ a_val
unfolding type_check_expr
array_set-accepted Γ a_arr a_idx a_val e' h =
    let ((t, arr'), e1, h) = >>=-ok (type_check_atom Γ a_arr) _ h in
    let ((i, idx'), e2, h) = >>=-ok (type_check_atom Γ a_idx) _ h in
    let ((u, val'), e3, h) = >>=-ok (type_check_atom Γ a_val) _ h in
    let (r, e4, h) = >>=-ok (ensure NotWasmType.i32 i) _ h in
    (
      (t, type_check_atom_sound Γ a_arr t arr' e1),
      ensured (type_check_atom_sound Γ a_idx i idx' e2) e4,
      (u, type_check_atom_sound Γ a_val u val' e3),
    )

accepted-array_set :
    (Γ : Env) (a_arr a_idx a_val : Atom)
    → HasSomeType Γ a_arr × AtomHas Γ a_idx NotWasmType.i32 × HasSomeType Γ a_val
    → (e' : Expr) × (type_check_expr Γ (Expr.array_set a_arr a_idx a_val)
        ≡ ok (NotWasmType.any, e'))
unfolding type_check_expr
accepted-array_set Γ a_arr a_idx a_val ((t, d1), d2, (u, d3)) =
    let (arr', e1) = type_check_atom_complete Γ a_arr t d1 in
    let (idx', e2) = type_check_atom_complete Γ a_idx NotWasmType.i32 d2 in
    let (val', e3) = type_check_atom_complete Γ a_val u d3 in
    (Expr.array_set arr' idx' val', rw (e1, e2, e3, ensure_self NotWasmType.i32))

-- An array assignment is accepted exactly when the index is an `i32` and the two other operands have some type:
-- the array need not be an array and the value need not be an `Any`.
pub type_check_expr-array_set :
    (Γ : Env) (a_arr a_idx a_val : Atom)
    → ((e' : Expr) × (type_check_expr Γ (Expr.array_set a_arr a_idx a_val)
          ≡ ok (NotWasmType.any, e')))
      ↔ (HasSomeType Γ a_arr × AtomHas Γ a_idx NotWasmType.i32 × HasSomeType Γ a_val)
type_check_expr-array_set Γ a_arr a_idx a_val =
    (λ (e', h). array_set-accepted Γ a_arr a_idx a_val e' h, accepted-array_set Γ a_arr a_idx a_val)
