-- ===== src/NotWasm/Walk.antt =====
-- Visitors of NotWasm (libjankscripten/src/notwasm/walk.rs). A visitor's state is passed along, and a node that it
-- replaces is returned. Left out: the methods called before a node is walked, which no visitor defines, and the location of
-- a node, which no visitor reads.
use jankscripten.Prelude.{Option, none, some, List, [], ◌∷◌}
use jankscripten.Shared.Ident.{Ident}
use jankscripten.NotWasm.Types.{NotWasmType}
use jankscripten.NotWasm.Syntax.{Atom, Atoms, Expr, Stmt, Stmts, Function, Global, Program}

pub record Visitor (S : Type 0) : Type 0 where
  pub exit_stmt : S → Stmt → Stmt × S
  pub exit_expr : S → Expr → Expr × S
  pub exit_atom : S → Atom → Atom × S

module _ {S : Type 0} (v : Visitor S) where
  unfoldable mutual
    pub walk_atom : S → Atom → Atom × S
    walk_atom s (Atom.prim_app f args) =
        let (args', s') = walk_atoms s args in v.exit_atom s' (Atom.prim_app f args')
    walk_atom s (Atom.to_any a ty) =
        let (a', s') = walk_atom s a in v.exit_atom s' (Atom.to_any a' ty)
    walk_atom s (Atom.float_to_int a) =
        let (a', s') = walk_atom s a in v.exit_atom s' (Atom.float_to_int a')
    walk_atom s (Atom.int_to_float a) =
        let (a', s') = walk_atom s a in v.exit_atom s' (Atom.int_to_float a')
    walk_atom s (Atom.unary op a) =
        let (a', s') = walk_atom s a in v.exit_atom s' (Atom.unary op a')
    walk_atom s (Atom.from_any a ty) =
        let (a', s') = walk_atom s a in v.exit_atom s' (Atom.from_any a' ty)
    walk_atom s (Atom.object_get a b) =
        let (a', s1) = walk_atom s a in
        let (b', s2) = walk_atom s1 b in v.exit_atom s2 (Atom.object_get a' b')
    walk_atom s (Atom.binary op a b) =
        let (a', s1) = walk_atom s a in
        let (b', s2) = walk_atom s1 b in v.exit_atom s2 (Atom.binary op a' b')
    walk_atom s (Atom.lit l) = v.exit_atom s (Atom.lit l)
    walk_atom s (Atom.id x) = v.exit_atom s (Atom.id x)
    walk_atom s (Atom.get_prim_func x) = v.exit_atom s (Atom.get_prim_func x)
    walk_atom s (Atom.deref a ty) = v.exit_atom s (Atom.deref a ty)
    walk_atom s (Atom.env_get i ty) = v.exit_atom s (Atom.env_get i ty)
    walk_atom s (Atom.any_length x l) = v.exit_atom s (Atom.any_length x l)

    pub walk_atoms : S → Atoms → Atoms × S
    walk_atoms s Atoms.nil = (Atoms.nil, s)
    walk_atoms s (Atoms.cons a rest) =
        let (a', s1) = walk_atom s a in
        let (rest', s2) = walk_atoms s1 rest in (Atoms.cons a' rest', s2)

  unfoldable pub walk_captured : S → List (Atom × NotWasmType) → List (Atom × NotWasmType) × S
  unfolding walk_atom
  walk_captured s [] = ([], s)
  walk_captured s ((a, ty) ∷ rest) =
      let (a', s1) = walk_atom s a in
      let (rest', s2) = walk_captured s1 rest in ((a', ty) ∷ rest', s2)

  unfoldable pub walk_expr : S → Expr → Expr × S
  unfolding walk_atom walk_captured
  walk_expr s Expr.object_empty = v.exit_expr s Expr.object_empty
  walk_expr s (Expr.call f xs) = v.exit_expr s (Expr.call f xs)
  walk_expr s (Expr.any_method_call x l xs tys) = v.exit_expr s (Expr.any_method_call x l xs tys)
  walk_expr s (Expr.closure_call f xs) = v.exit_expr s (Expr.closure_call f xs)
  walk_expr s (Expr.prim_call f xs) = v.exit_expr s (Expr.prim_call f xs)
  walk_expr s (Expr.object_set a b c) =
      let (a', s1) = walk_atom s a in
      let (b', s2) = walk_atom s1 b in
      let (c', s3) = walk_atom s2 c in v.exit_expr s3 (Expr.object_set a' b' c')
  walk_expr s (Expr.array_set a b c) =
      let (a', s1) = walk_atom s a in
      let (b', s2) = walk_atom s1 b in
      let (c', s3) = walk_atom s2 c in v.exit_expr s3 (Expr.array_set a' b' c')
  walk_expr s (Expr.new_ref a ty) =
      let (a', s') = walk_atom s a in v.exit_expr s' (Expr.new_ref a' ty)
  walk_expr s (Expr.atom a) = let (a', s') = walk_atom s a in v.exit_expr s' (Expr.atom a')
  walk_expr s (Expr.closure f captured) =
      let (captured', s') = walk_captured s captured in v.exit_expr s' (Expr.closure f captured')

  unfoldable mutual
    unfolding walk_atom walk_expr

    pub walk_stmt : S → Stmt → Stmt × S
    walk_stmt s Stmt.empty = v.exit_stmt s Stmt.empty
    walk_stmt s (Stmt.break l) = v.exit_stmt s (Stmt.break l)
    walk_stmt s (Stmt.goto l) = v.exit_stmt s (Stmt.goto l)
    walk_stmt s Stmt.trap = v.exit_stmt s Stmt.trap
    walk_stmt s (Stmt.label l a) = let (a', s') = walk_stmt s a in v.exit_stmt s' (Stmt.label l a')
    walk_stmt s (Stmt.loop a) = let (a', s') = walk_stmt s a in v.exit_stmt s' (Stmt.loop a')
    walk_stmt s (Stmt.block ss) = let (ss', s') = walk_stmts s ss in v.exit_stmt s' (Stmt.block ss')
    walk_stmt s (Stmt.var x) =
        let (e', s') = walk_expr s x.named in v.exit_stmt s' (Stmt.var (record x { named = e' }))
    walk_stmt s (Stmt.expression e) =
        let (e', s') = walk_expr s e in v.exit_stmt s' (Stmt.expression e')
    walk_stmt s (Stmt.assign x e) =
        let (e', s') = walk_expr s e in v.exit_stmt s' (Stmt.assign x e')
    walk_stmt s (Stmt.store x e) = let (e', s') = walk_expr s e in v.exit_stmt s' (Stmt.store x e')
    walk_stmt s (Stmt.return a) = let (a', s') = walk_atom s a in v.exit_stmt s' (Stmt.return a')
    walk_stmt s (Stmt.if_ e sa sb) =
        let (e', s1) = walk_atom s e in
        let (sa', s2) = walk_stmt s1 sa in
        let (sb', s3) = walk_stmt s2 sb in v.exit_stmt s3 (Stmt.if_ e' sa' sb')

    pub walk_stmts : S → Stmts → Stmts × S
    walk_stmts s Stmts.nil = (Stmts.nil, s)
    walk_stmts s (Stmts.cons a ss) =
        let (a', s1) = walk_stmt s a in let (ss', s2) = walk_stmts s1 ss in (Stmts.cons a' ss', s2)

  unfoldable pub walk_functions : S → List (Ident × Function) → List (Ident × Function) × S
  unfolding walk_stmt
  walk_functions s [] = ([], s)
  walk_functions s ((name, f) ∷ rest) =
      let (body', s1) = walk_stmt s f.body in
      let (rest', s2) = walk_functions s1 rest in ((name, record f { body = body' }) ∷ rest', s2)

  unfoldable pub walk_initial : S → Option Atom → Option Atom × S
  unfolding walk_atom
  walk_initial s none = (none, s)
  walk_initial s (some a) = let (a', s') = walk_atom s a in (some a', s')

  unfoldable pub walk_globals : S → List (Ident × Global) → List (Ident × Global) × S
  unfolding walk_initial
  walk_globals s [] = ([], s)
  walk_globals s ((name, g) ∷ rest) =
      let (atom', s1) = walk_initial s g.atom in
      let (rest', s2) = walk_globals s1 rest in ((name, record g { atom = atom' }) ∷ rest', s2)

  unfoldable pub walk : S → Program → Program × S
  unfolding walk_functions walk_globals
  walk s p =
      let (functions', s1) = walk_functions s p.functions in
      let (globals', s2) = walk_globals s1 p.globals in
      (record p { functions = functions'; globals = globals' }, s2)
