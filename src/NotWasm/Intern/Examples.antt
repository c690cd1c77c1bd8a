-- ===== src/NotWasm/Intern/Examples.antt =====
-- A program with two literals of one string.
use jankscripten.Prelude.{ℕ, String, ◌≡◌, refl, ite, List, [], ◌∷◌, arith}
use jankscripten.Shared.Ident.{Ident, String-discrete}
use jankscripten.NotWasm.Types.{NotWasmTypes, OptType, FnType}
use jankscripten.NotWasm.Operators.{Lit}
use jankscripten.NotWasm.Syntax.{Atom, Expr, Stmt, Stmts, Program}
use jankscripten.NotWasm.Walk.{walk_atom, walk_expr, walk_stmt, walk_functions, walk_globals, walk}
use jankscripten.NotWasm.Intern.{
  InternVisitor, offset_of, intern_new, intern_found, intern_string, intern_lit, exit_atom,
  exit_expr, intern_visitor, intern,
}
use jankscripten.NotWasm.Intern.Layout.{Fits}
use jankscripten.NotWasm.Intern.Literals.{InProgram}
use jankscripten.NotWasm.Intern.Strings.{PlainLit}
use jankscripten.NotWasm.Intern.RoundTrip.{ReadsBack, intern-deref, intern_string-again}

-- the bytes of "ab", and of no other string
abbrev bytes_of_ab : String → List ℕ
unfolding String-discrete
bytes_of_ab s = ite (String-discrete s "ab") (97 ∷ 98 ∷ []) []

abbrev twice : Program
twice = record {
  rts_fn_imports = [];
  functions =
      (
        Ident.named "f",
        record {
          body = Stmt.block (
              Stmts.cons (Stmt.expression (Expr.atom (Atom.lit (Lit.string "ab"))))
                (Stmts.cons (Stmt.return (Atom.lit (Lit.string "ab"))) Stmts.nil));
          fn_type = FnType.fn_type NotWasmTypes.nil OptType.no_type;
          params = [];
        },
      )
      ∷ [];
  globals = [];
  segment = [];
}

-- The string is stored once, with two zeros after it.
twice-segment :
    (intern bytes_of_ab twice).0.segment ≡ 0 ∷ 1 ∷ 0 ∷ 0 ∷ 2 ∷ 0 ∷ 0 ∷ 0 ∷ 97 ∷ 98 ∷ 0 ∷ 0 ∷ []
unfolding bytes_of_ab String-discrete intern walk walk_functions walk_globals walk_stmt walk_expr
    walk_atom exit_atom exit_expr intern_lit intern_string intern_found intern_new offset_of
    intern_visitor
twice-segment = refl

twice-Fits : Fits (intern bytes_of_ab twice).0.segment
twice-Fits = rw twice-segment (omega arith)

intern-deref_example :
    InProgram PlainLit
      (ReadsBack bytes_of_ab (intern bytes_of_ab twice).0.segment)
      (intern bytes_of_ab twice).0
intern-deref_example = intern-deref bytes_of_ab twice (((tt, (tt, tt)), tt), tt) twice-Fits

no_strings : InternVisitor
no_strings = record { segment = []; already_interned = [] }

intern_string-again_example :
    let (l, v') = intern_string bytes_of_ab no_strings "ab" in
    ◌≡◌ {A = Lit × InternVisitor} (intern_string bytes_of_ab v' "ab") (l, v')
intern_string-again_example = intern_string-again bytes_of_ab no_strings "ab"
