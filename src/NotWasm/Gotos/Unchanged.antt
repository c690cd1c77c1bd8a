-- ===== src/NotWasm/Gotos/Unchanged.antt =====
-- A visitor that has `exit_stmt` only leaves expressions and atoms as they are, and its state with them.
use jankscripten.Prelude.{◌≡◌, refl, List, [], ◌∷◌}
use jankscripten.NotWasm.Types.{NotWasmType}
use jankscripten.NotWasm.Syntax.{Atom, Atoms, Expr, Stmt}
use jankscripten.NotWasm.Walk.{walk_atom, walk_atoms, walk_captured, walk_expr}
use jankscripten.NotWasm.Gotos.{stmt_visitor}

module _ {S : Type 0} (f : S → Stmt → Stmt × S) where
  mutual
    unfolding walk_atom

    pub walk_atom-unchanged : (s : S) (a : Atom) → walk_atom (stmt_visitor f) s a ≡ (a, s)
    walk_atom-unchanged s (Atom.prim_app g args) = rw (walk_atoms-unchanged s args) refl
    walk_atom-unchanged s (Atom.to_any a ty) = rw (walk_atom-unchanged s a) refl
    walk_atom-unchanged s (Atom.float_to_int a) = rw (walk_atom-unchanged s a) refl
    walk_atom-unchanged s (Atom.int_to_float a) = rw (walk_atom-unchanged s a) refl
    walk_atom-unchanged s (Atom.unary op a) = rw (walk_atom-unchanged s a) refl
    walk_atom-unchanged s (Atom.from_any a ty) = rw (walk_atom-unchanged s a) refl
    walk_atom-unchanged s (Atom.object_get a b) =
        rw (walk_atom-unchanged s a, walk_atom-unchanged s b) refl
    walk_atom-unchanged s (Atom.binary op a b) =
        rw (walk_atom-unchanged s a, walk_atom-unchanged s b) refl
    walk_atom-unchanged s (Atom.lit l) = refl
    walk_atom-unchanged s (Atom.id x) = refl
    walk_atom-unchanged s (Atom.get_prim_func x) = refl
    walk_atom-unchanged s (Atom.deref a ty) = refl
    walk_atom-unchanged s (Atom.env_get i ty) = refl
    walk_atom-unchanged s (Atom.any_length x l) = refl

    walk_atoms-unchanged : (s : S) (as_ : Atoms) → walk_atoms (stmt_visitor f) s as_ ≡ (as_, s)
    walk_atoms-unchanged s Atoms.nil = refl
    walk_atoms-unchanged s (Atoms.cons a rest) =
        rw (walk_atom-unchanged s a, walk_atoms-unchanged s rest) refl

  walk_captured-unchanged :
      (s : S) (as_ : List (Atom × NotWasmType)) → walk_captured (stmt_visitor f) s as_ ≡ (as_, s)
  unfolding walk_captured
  walk_captured-unchanged s [] = refl
  walk_captured-unchanged s ((a, ty) ∷ rest) =
      rw (walk_atom-unchanged s a, walk_captured-unchanged s rest) refl

  pub walk_expr-unchanged : (s : S) (e : Expr) → walk_expr (stmt_visitor f) s e ≡ (e, s)
  unfolding walk_expr
  walk_expr-unchanged s Expr.object_empty = refl
  walk_expr-unchanged s (Expr.call g xs) = refl
  walk_expr-unchanged s (Expr.any_method_call x l xs tys) = refl
  walk_expr-unchanged s (Expr.closure_call g xs) = refl
  walk_expr-unchanged s (Expr.prim_call g xs) = refl
  walk_expr-unchanged s (Expr.object_set a b c) =
      rw (walk_atom-unchanged s a, walk_atom-unchanged s b, walk_atom-unchanged s c) refl
  walk_expr-unchanged s (Expr.array_set a b c) =
      rw (walk_atom-unchanged s a, walk_atom-unchanged s b, walk_atom-unchanged s c) refl
  walk_expr-unchanged s (Expr.new_ref a ty) = rw (walk_atom-unchanged s a) refl
  walk_expr-unchanged s (Expr.atom a) = rw (walk_atom-unchanged s a) refl
  walk_expr-unchanged s (Expr.closure g captured) = rw (walk_captured-unchanged s captured) refl
