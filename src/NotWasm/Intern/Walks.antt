-- ===== src/NotWasm/Intern/Walks.antt =====
-- The walk over a program interns every literal on its way.
use jankscripten.Prelude.{
  ℕ, String, refl, sym, ap, subst, ◌∙◌, Option, none, some, List, [], ◌∷◌, ◌++◌, arith,
}
use mathlib.Core.List.{append_assoc}
use jankscripten.Shared.Ident.{Ident}
use jankscripten.NotWasm.Types.{NotWasmType}
use jankscripten.NotWasm.Operators.{Lit}
use jankscripten.NotWasm.Syntax.{Atom, Atoms, Expr, Stmt, Stmts, Function, Global, Program}
use jankscripten.NotWasm.Walk.{
  walk_atom, walk_atoms, walk_captured, walk_expr, walk_stmt, walk_stmts, walk_functions,
  walk_initial, walk_globals, walk,
}
use jankscripten.NotWasm.Intern.{
  InternVisitor, offset_of, exit_atom, exit_expr, intern_visitor, intern,
}
use jankscripten.NotWasm.Intern.Literals.{
  InAtom, InAtoms, InCaptured, InExpr, InStmt, InStmts, InFunctions, InInitial, InGlobals,
  InProgram, atom_mono, stmt_mono, functions_mono,
}
use jankscripten.NotWasm.Intern.Strings.{
  RawLit, PlainLit, InternedIn, InternedIn-append, Inv, Grown, same_state, intern_lit-Grown,
}

module _ (into_bytes : String → List ℕ) where
  both :
      (v v1 v2 : InternVisitor) (G H : List ℕ → Type 0)
      → Grown into_bytes v v1 G
      → Grown into_bytes v1 v2 H
      → ((seg more : List ℕ) → G seg → G (seg ++ more))
      → Grown into_bytes v v2 (λ seg. G seg × H seg)
  both v v1 v2 G H g h keep = record {
    inv = h.inv;
    more = g.more ++ h.more;
    extends =
        h.extends ∙ (ap (λ seg. seg ++ h.more) g.extends ∙ append_assoc v.segment g.more h.more);
    good = (subst G (sym h.extends) (keep v1.segment h.more g.good), h.good);
  }

  three :
      (v v1 v2 v3 : InternVisitor) (G H K : List ℕ → Type 0)
      → Grown into_bytes v v1 G
      → Grown into_bytes v1 v2 H
      → Grown into_bytes v2 v3 K
      → ((seg more : List ℕ) → G seg → G (seg ++ more))
      → ((seg more : List ℕ) → H seg → H (seg ++ more))
      → Grown into_bytes v v3 (λ seg. G seg × H seg × K seg)
  three v v1 v2 v3 G H K g h k keep_g keep_h =
      let all = both v v1 v3 G (λ seg. (H seg × K seg)) g (both v1 v2 v3 H K h k keep_h) keep_g in
      let (x, rest) = all.good in
      let (y, z) = rest in
      record { inv = all.inv; more = all.more; extends = all.extends; good = (x, y, z) }

  abbrev weaken :
      (seg more : List ℕ) (l : Lit)
      → InternedIn into_bytes seg l
      → InternedIn into_bytes (seg ++ more) l
  weaken seg more l h = InternedIn-append into_bytes seg more l h

  abbrev atom_keeps :
      (a : Atom) (seg more : List ℕ)
      → InAtom PlainLit (InternedIn into_bytes seg) a
      → InAtom PlainLit (InternedIn into_bytes (seg ++ more)) a
  atom_keeps a seg more h =
      atom_mono PlainLit (InternedIn into_bytes seg) (InternedIn into_bytes (seg ++ more))
        (weaken seg more) a h

  mutual
    unfolding walk_atom exit_atom intern_visitor

    walk_atom_grows :
        (a : Atom) (v : InternVisitor)
        → Inv into_bytes v
        → InAtom PlainLit RawLit a
        → let (a', v') = walk_atom (intern_visitor into_bytes) v a in
          Grown into_bytes v v' (λ seg. InAtom PlainLit (InternedIn into_bytes seg) a')
    walk_atom_grows (Atom.lit l) v i raw = intern_lit-Grown into_bytes v l i raw
    walk_atom_grows (Atom.any_length x l) v i raw = intern_lit-Grown into_bytes v l i raw
    walk_atom_grows (Atom.prim_app f args) v i raw = walk_atoms_grows args v i raw
    walk_atom_grows (Atom.to_any a ty) v i raw = walk_atom_grows a v i raw
    walk_atom_grows (Atom.from_any a ty) v i raw = walk_atom_grows a v i raw
    walk_atom_grows (Atom.float_to_int a) v i raw = walk_atom_grows a v i raw
    walk_atom_grows (Atom.int_to_float a) v i raw = walk_atom_grows a v i raw
    walk_atom_grows (Atom.unary op a) v i raw = walk_atom_grows a v i raw
    walk_atom_grows (Atom.object_get a b) v i (ra, rb) =
        let (a', v1) = walk_atom (intern_visitor into_bytes) v a in
        let (b', v2) = walk_atom (intern_visitor into_bytes) v1 b in
        let first = walk_atom_grows a v i ra in
        both v v1 v2 _ _ first (walk_atom_grows b v1 first.inv rb) (atom_keeps a')
    walk_atom_grows (Atom.binary op a b) v i (ra, rb) =
        let (a', v1) = walk_atom (intern_visitor into_bytes) v a in
        let (b', v2) = walk_atom (intern_visitor into_bytes) v1 b in
        let first = walk_atom_grows a v i ra in
        both v v1 v2 _ _ first (walk_atom_grows b v1 first.inv rb) (atom_keeps a')
    walk_atom_grows (Atom.id x) v i raw = same_state into_bytes v _ i tt
    walk_atom_grows (Atom.get_prim_func x) v i raw = same_state into_bytes v _ i tt
    walk_atom_grows (Atom.deref a ty) v i raw = same_state into_bytes v _ i raw
    walk_atom_grows (Atom.env_get k ty) v i raw = same_state into_bytes v _ i tt

    walk_atoms_grows :
        (as' : Atoms) (v : InternVisitor)
        → Inv into_bytes v
        → InAtoms PlainLit RawLit as'
        → let (as'', v') = walk_atoms (intern_visitor into_bytes) v as' in
          Grown into_bytes v v' (λ seg. InAtoms PlainLit (InternedIn into_bytes seg) as'')
    walk_atoms_grows Atoms.nil v i raw = same_state into_bytes v _ i tt
    walk_atoms_grows (Atoms.cons a rest) v i (ra, rb) =
        let (a', v1) = walk_atom (intern_visitor into_bytes) v a in
        let (rest', v2) = walk_atoms (intern_visitor into_bytes) v1 rest in
        let first = walk_atom_grows a v i ra in
        both v v1 v2 _ _ first (walk_atoms_grows rest v1 first.inv rb) (atom_keeps a')

  abbrev Plains : List ℕ → Lit → Type 0
  Plains seg = InternedIn into_bytes seg

  walk_captured_grows :
      (cs : List (Atom × NotWasmType)) (v : InternVisitor)
      → Inv into_bytes v
      → InCaptured PlainLit RawLit cs
      → let (cs', v') = walk_captured (intern_visitor into_bytes) v cs in
        Grown into_bytes v v' (λ seg. InCaptured PlainLit (Plains seg) cs')
  unfolding walk_captured
  walk_captured_grows [] v i raw = same_state into_bytes v _ i tt
  walk_captured_grows ((a, ty) ∷ rest) v i (ra, rb) =
      let (a', v1) = walk_atom (intern_visitor into_bytes) v a in
      let (rest', v2) = walk_captured (intern_visitor into_bytes) v1 rest in
      let first = walk_atom_grows a v i ra in
      both v v1 v2 _ _ first (walk_captured_grows rest v1 first.inv rb) (atom_keeps a')

  three_atoms :
      (a b c : Atom) (v : InternVisitor)
      → Inv into_bytes v
      → InAtom PlainLit RawLit a × InAtom PlainLit RawLit b × InAtom PlainLit RawLit c
      → let (a', v1) = walk_atom (intern_visitor into_bytes) v a in
        let (b', v2) = walk_atom (intern_visitor into_bytes) v1 b in
        let (c', v3) = walk_atom (intern_visitor into_bytes) v2 c in
        Grown into_bytes v v3 (λ seg.
          InAtom PlainLit (Plains seg) a'
          × InAtom PlainLit (Plains seg) b'
          × InAtom PlainLit (Plains seg) c')
  three_atoms a b c v i (ra, rb, rc) =
      let (a', v1) = walk_atom (intern_visitor into_bytes) v a in
      let (b', v2) = walk_atom (intern_visitor into_bytes) v1 b in
      let (c', v3) = walk_atom (intern_visitor into_bytes) v2 c in
      let first = walk_atom_grows a v i ra in
      let second = walk_atom_grows b v1 first.inv rb in
      three v v1 v2 v3 _ _ _ first second (walk_atom_grows c v2 second.inv rc) (atom_keeps a')
        (atom_keeps b')

  walk_expr_grows :
      (e : Expr) (v : InternVisitor)
      → Inv into_bytes v
      → InExpr PlainLit RawLit e
      → let (e', v') = walk_expr (intern_visitor into_bytes) v e in
        Grown into_bytes v v' (λ seg. InExpr PlainLit (Plains seg) e')
  unfolding walk_expr exit_expr intern_visitor
  walk_expr_grows Expr.object_empty v i raw = same_state into_bytes v _ i tt
  walk_expr_grows (Expr.call f xs) v i raw = same_state into_bytes v _ i tt
  walk_expr_grows (Expr.closure_call f xs) v i raw = same_state into_bytes v _ i tt
  walk_expr_grows (Expr.prim_call f xs) v i raw = same_state into_bytes v _ i tt
  walk_expr_grows (Expr.any_method_call x l xs tys) v i raw = intern_lit-Grown into_bytes v l i raw
  walk_expr_grows (Expr.object_set a b c) v i raw = three_atoms a b c v i raw
  walk_expr_grows (Expr.array_set a b c) v i raw = three_atoms a b c v i raw
  walk_expr_grows (Expr.new_ref a ty) v i raw = walk_atom_grows a v i raw
  walk_expr_grows (Expr.atom a) v i raw = walk_atom_grows a v i raw
  walk_expr_grows (Expr.closure f captured) v i raw = walk_captured_grows captured v i raw

  abbrev stmt_keeps :
      (s : Stmt) (seg more : List ℕ)
      → InStmt PlainLit (Plains seg) s
      → InStmt PlainLit (Plains (seg ++ more)) s
  stmt_keeps s seg more h =
      stmt_mono PlainLit (Plains seg) (Plains (seg ++ more)) (weaken seg more) s h

  mutual
    unfolding walk_stmt intern_visitor

    walk_stmt_grows :
        (s : Stmt) (v : InternVisitor)
        → Inv into_bytes v
        → InStmt PlainLit RawLit s
        → let (s', v') = walk_stmt (intern_visitor into_bytes) v s in
          Grown into_bytes v v' (λ seg. InStmt PlainLit (Plains seg) s')
    walk_stmt_grows Stmt.empty v i raw = same_state into_bytes v _ i tt
    walk_stmt_grows (Stmt.break l) v i raw = same_state into_bytes v _ i tt
    walk_stmt_grows (Stmt.goto l) v i raw = same_state into_bytes v _ i tt
    walk_stmt_grows Stmt.trap v i raw = same_state into_bytes v _ i tt
    walk_stmt_grows (Stmt.label l s) v i raw = walk_stmt_grows s v i raw
    walk_stmt_grows (Stmt.loop s) v i raw = walk_stmt_grows s v i raw
    walk_stmt_grows (Stmt.block ss) v i raw = walk_stmts_grows ss v i raw
    walk_stmt_grows (Stmt.var x) v i raw = walk_expr_grows x.named v i raw
    walk_stmt_grows (Stmt.expression e) v i raw = walk_expr_grows e v i raw
    walk_stmt_grows (Stmt.assign x e) v i raw = walk_expr_grows e v i raw
    walk_stmt_grows (Stmt.store x e) v i raw = walk_expr_grows e v i raw
    walk_stmt_grows (Stmt.return a) v i raw = walk_atom_grows a v i raw
    walk_stmt_grows (Stmt.if_ a s t) v i (ra, rs, rt) =
        let (a', v1) = walk_atom (intern_visitor into_bytes) v a in
        let (s', v2) = walk_stmt (intern_visitor into_bytes) v1 s in
        let (t', v3) = walk_stmt (intern_visitor into_bytes) v2 t in
        let first = walk_atom_grows a v i ra in
        let second = walk_stmt_grows s v1 first.inv rs in
        three v v1 v2 v3 _ _ _ first second (walk_stmt_grows t v2 second.inv rt) (atom_keeps a')
          (stmt_keeps s')

    walk_stmts_grows :
        (ss : Stmts) (v : InternVisitor)
        → Inv into_bytes v
        → InStmts PlainLit RawLit ss
        → let (ss', v') = walk_stmts (intern_visitor into_bytes) v ss in
          Grown into_bytes v v' (λ seg. InStmts PlainLit (Plains seg) ss')
    walk_stmts_grows Stmts.nil v i raw = same_state into_bytes v _ i tt
    walk_stmts_grows (Stmts.cons s rest) v i (rs, rr) =
        let (s', v1) = walk_stmt (intern_visitor into_bytes) v s in
        let (rest', v2) = walk_stmts (intern_visitor into_bytes) v1 rest in
        let first = walk_stmt_grows s v i rs in
        both v v1 v2 _ _ first (walk_stmts_grows rest v1 first.inv rr) (stmt_keeps s')

  pub walk_functions_grows :
      (fs : List (Ident × Function)) (v : InternVisitor)
      → Inv into_bytes v
      → InFunctions PlainLit RawLit fs
      → let (fs', v') = walk_functions (intern_visitor into_bytes) v fs in
        Grown into_bytes v v' (λ seg. InFunctions PlainLit (Plains seg) fs')
  unfolding walk_functions
  walk_functions_grows [] v i raw = same_state into_bytes v _ i tt
  walk_functions_grows ((name, f) ∷ rest) v i (rf, rr) =
      let (body', v1) = walk_stmt (intern_visitor into_bytes) v f.body in
      let (rest', v2) = walk_functions (intern_visitor into_bytes) v1 rest in
      let first = walk_stmt_grows f.body v i rf in
      both v v1 v2 _ _ first (walk_functions_grows rest v1 first.inv rr) (stmt_keeps body')

  initial_keeps :
      (o : Option Atom) (seg more : List ℕ)
      → InInitial PlainLit (Plains seg) o
      → InInitial PlainLit (Plains (seg ++ more)) o
  initial_keeps none seg more h = tt
  initial_keeps (some a) seg more h = atom_keeps a seg more h

  walk_initial_grows :
      (o : Option Atom) (v : InternVisitor)
      → Inv into_bytes v
      → InInitial PlainLit RawLit o
      → let (o', v') = walk_initial (intern_visitor into_bytes) v o in
        Grown into_bytes v v' (λ seg. InInitial PlainLit (Plains seg) o')
  unfolding walk_initial
  walk_initial_grows none v i raw = same_state into_bytes v _ i tt
  walk_initial_grows (some a) v i raw = walk_atom_grows a v i raw

  walk_globals_grows :
      (gs : List (Ident × Global)) (v : InternVisitor)
      → Inv into_bytes v
      → InGlobals PlainLit RawLit gs
      → let (gs', v') = walk_globals (intern_visitor into_bytes) v gs in
        Grown into_bytes v v' (λ seg. InGlobals PlainLit (Plains seg) gs')
  unfolding walk_globals
  walk_globals_grows [] v i raw = same_state into_bytes v _ i tt
  walk_globals_grows ((name, g) ∷ rest) v i (rg, rr) =
      let (atom', v1) = walk_initial (intern_visitor into_bytes) v g.atom in
      let (rest', v2) = walk_globals (intern_visitor into_bytes) v1 rest in
      let first = walk_initial_grows g.atom v i rg in
      both v v1 v2 _ _ first (walk_globals_grows rest v1 first.inv rr) (initial_keeps atom')

empty-Inv :
    (into_bytes : String → List ℕ) → Inv into_bytes (record { segment = []; already_interned = [] })
unfolding offset_of
empty-Inv into_bytes = record { aligned = refl; placed = λ s offset e. absurd (ground arith) }

-- Interning a program whose literals are not interned yet, and that has no string below a dereference, leaves no string
-- literal in it; and if 32 bits address its data, then every interned literal's bytes are stored at its offset, which is a
-- multiple of four, after the tag of strings and the length.
pub intern-InternedIn :
    (into_bytes : String → List ℕ) (p : Program)
    → InProgram PlainLit RawLit p
    → let (p', _) = intern into_bytes p in InProgram PlainLit (InternedIn into_bytes p'.segment) p'
unfolding intern walk
intern-InternedIn into_bytes p (rf, rg) =
    let v : InternVisitor = record { segment = []; already_interned = [] } in
    let (functions', v1) = walk_functions (intern_visitor into_bytes) v p.functions in
    let (globals', v2) = walk_globals (intern_visitor into_bytes) v1 p.globals in
    let first = walk_functions_grows into_bytes p.functions v (empty-Inv into_bytes) rf in
    let second = walk_globals_grows into_bytes p.globals v1 first.inv rg in
    (both into_bytes v v1 v2 (λ seg. InFunctions PlainLit (InternedIn into_bytes seg) functions') _
      first second
      (λ seg more h.
        functions_mono PlainLit (InternedIn into_bytes seg) (InternedIn into_bytes (seg ++ more))
          (InternedIn-append into_bytes seg more) functions' h)).good
