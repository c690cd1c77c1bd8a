-- ===== src/NotWasm/Intern/Literals.antt =====
-- Properties of all the literals of a program.
use jankscripten.Prelude.{Option, none, some, List, [], ◌∷◌}
use jankscripten.Shared.Ident.{Ident}
use jankscripten.NotWasm.Types.{NotWasmType}
use jankscripten.NotWasm.Operators.{Lit}
use jankscripten.NotWasm.Syntax.{Atom, Atoms, Expr, Stmt, Stmts, Function, Global, Program}

-- every literal of an atom
module _ (P : Lit → Type 0) where
  abbrev mutual
    pub AllAtom : Atom → Type 0
    AllAtom (Atom.lit l) = P l
    AllAtom (Atom.any_length x l) = P l
    AllAtom (Atom.prim_app f args) = AllAtoms args
    AllAtom (Atom.to_any a ty) = AllAtom a
    AllAtom (Atom.from_any a ty) = AllAtom a
    AllAtom (Atom.float_to_int a) = AllAtom a
    AllAtom (Atom.int_to_float a) = AllAtom a
    AllAtom (Atom.object_get a b) = AllAtom a × AllAtom b
    AllAtom (Atom.unary op a) = AllAtom a
    AllAtom (Atom.binary op a b) = AllAtom a × AllAtom b
    AllAtom (Atom.id x) = Unit {0}
    AllAtom (Atom.get_prim_func x) = Unit {0}
    AllAtom (Atom.deref a ty) = AllAtom a
    AllAtom (Atom.env_get i ty) = Unit {0}

    pub AllAtoms : Atoms → Type 0
    AllAtoms Atoms.nil = Unit {0}
    AllAtoms (Atoms.cons a rest) = AllAtom a × AllAtoms rest

-- `D` is asked of the literals below a dereference, `P` of the others.
module _ (D P : Lit → Type 0) where
  abbrev mutual
    pub InAtom : Atom → Type 0
    InAtom (Atom.lit l) = P l
    InAtom (Atom.any_length x l) = P l
    InAtom (Atom.prim_app f args) = InAtoms args
    InAtom (Atom.to_any a ty) = InAtom a
    InAtom (Atom.from_any a ty) = InAtom a
    InAtom (Atom.float_to_int a) = InAtom a
    InAtom (Atom.int_to_float a) = InAtom a
    InAtom (Atom.object_get a b) = InAtom a × InAtom b
    InAtom (Atom.unary op a) = InAtom a
    InAtom (Atom.binary op a b) = InAtom a × InAtom b
    InAtom (Atom.id x) = Unit {0}
    InAtom (Atom.get_prim_func x) = Unit {0}
    InAtom (Atom.deref a ty) = AllAtom D a
    InAtom (Atom.env_get i ty) = Unit {0}

    pub InAtoms : Atoms → Type 0
    InAtoms Atoms.nil = Unit {0}
    InAtoms (Atoms.cons a rest) = InAtom a × InAtoms rest

  abbrev pub InCaptured : List (Atom × NotWasmType) → Type 0
  InCaptured [] = Unit {0}
  InCaptured ((a, ty) ∷ rest) = InAtom a × InCaptured rest

  abbrev pub InExpr : Expr → Type 0
  InExpr (Expr.array_set a b c) = InAtom a × InAtom b × InAtom c
  InExpr (Expr.object_set a b c) = InAtom a × InAtom b × InAtom c
  InExpr (Expr.any_method_call x l xs tys) = P l
  InExpr (Expr.new_ref a ty) = InAtom a
  InExpr (Expr.atom a) = InAtom a
  InExpr (Expr.closure f captured) = InCaptured captured
  InExpr _ = Unit {0}

  abbrev mutual
    pub InStmt : Stmt → Type 0
    InStmt (Stmt.var x) = InExpr x.named
    InStmt (Stmt.expression e) = InExpr e
    InStmt (Stmt.assign x e) = InExpr e
    InStmt (Stmt.store x e) = InExpr e
    InStmt (Stmt.if_ a s t) = InAtom a × InStmt s × InStmt t
    InStmt (Stmt.loop s) = InStmt s
    InStmt (Stmt.label l s) = InStmt s
    InStmt (Stmt.return a) = InAtom a
    InStmt (Stmt.block ss) = InStmts ss
    InStmt Stmt.empty = Unit {0}
    InStmt (Stmt.break l) = Unit {0}
    InStmt Stmt.trap = Unit {0}
    InStmt (Stmt.goto l) = Unit {0}

    pub InStmts : Stmts → Type 0
    InStmts Stmts.nil = Unit {0}
    InStmts (Stmts.cons s rest) = InStmt s × InStmts rest

  abbrev pub InFunctions : List (Ident × Function) → Type 0
  InFunctions [] = Unit {0}
  InFunctions ((name, f) ∷ rest) = InStmt f.body × InFunctions rest

  abbrev pub InInitial : Option Atom → Type 0
  InInitial none = Unit {0}
  InInitial (some a) = InAtom a

  abbrev pub InGlobals : List (Ident × Global) → Type 0
  InGlobals [] = Unit {0}
  InGlobals ((name, g) ∷ rest) = InInitial g.atom × InGlobals rest

  -- of every literal of the program
  abbrev pub InProgram : Program → Type 0
  InProgram p = InFunctions p.functions × InGlobals p.globals

-- What follows from a property of literals holds where the property does.
module _ (D P Q : Lit → Type 0) (weaken : (l : Lit) → P l → Q l) where
  mutual
    pub atom_mono : (a : Atom) → InAtom D P a → InAtom D Q a
    atom_mono (Atom.lit l) h = weaken l h
    atom_mono (Atom.any_length x l) h = weaken l h
    atom_mono (Atom.prim_app f args) h = atoms_mono args h
    atom_mono (Atom.to_any a ty) h = atom_mono a h
    atom_mono (Atom.from_any a ty) h = atom_mono a h
    atom_mono (Atom.float_to_int a) h = atom_mono a h
    atom_mono (Atom.int_to_float a) h = atom_mono a h
    atom_mono (Atom.object_get a b) (h, k) = (atom_mono a h, atom_mono b k)
    atom_mono (Atom.unary op a) h = atom_mono a h
    atom_mono (Atom.binary op a b) (h, k) = (atom_mono a h, atom_mono b k)
    atom_mono (Atom.id x) h = tt
    atom_mono (Atom.get_prim_func x) h = tt
    atom_mono (Atom.deref a ty) h = h
    atom_mono (Atom.env_get i ty) h = tt

    pub atoms_mono : (as' : Atoms) → InAtoms D P as' → InAtoms D Q as'
    atoms_mono Atoms.nil h = tt
    atoms_mono (Atoms.cons a rest) (h, k) = (atom_mono a h, atoms_mono rest k)

  pub captured_mono : (cs : List (Atom × NotWasmType)) → InCaptured D P cs → InCaptured D Q cs
  captured_mono [] h = tt
  captured_mono ((a, ty) ∷ rest) (h, k) = (atom_mono a h, captured_mono rest k)

  pub expr_mono : (e : Expr) → InExpr D P e → InExpr D Q e
  expr_mono (Expr.array_set a b c) (h, k, l) = (atom_mono a h, atom_mono b k, atom_mono c l)
  expr_mono (Expr.object_set a b c) (h, k, l) = (atom_mono a h, atom_mono b k, atom_mono c l)
  expr_mono (Expr.any_method_call x l xs tys) h = weaken l h
  expr_mono (Expr.new_ref a ty) h = atom_mono a h
  expr_mono (Expr.atom a) h = atom_mono a h
  expr_mono (Expr.closure f captured) h = captured_mono captured h
  expr_mono (Expr.call f xs) h = tt
  expr_mono (Expr.closure_call f xs) h = tt
  expr_mono (Expr.prim_call f xs) h = tt
  expr_mono Expr.object_empty h = tt

  mutual
    pub stmt_mono : (s : Stmt) → InStmt D P s → InStmt D Q s
    stmt_mono (Stmt.var x) h = expr_mono x.named h
    stmt_mono (Stmt.expression e) h = expr_mono e h
    stmt_mono (Stmt.assign x e) h = expr_mono e h
    stmt_mono (Stmt.store x e) h = expr_mono e h
    stmt_mono (Stmt.if_ a s t) (h, k, l) = (atom_mono a h, stmt_mono s k, stmt_mono t l)
    stmt_mono (Stmt.loop s) h = stmt_mono s h
    stmt_mono (Stmt.label l s) h = stmt_mono s h
    stmt_mono (Stmt.return a) h = atom_mono a h
    stmt_mono (Stmt.block ss) h = stmts_mono ss h
    stmt_mono Stmt.empty h = tt
    stmt_mono (Stmt.break l) h = tt
    stmt_mono Stmt.trap h = tt
    stmt_mono (Stmt.goto l) h = tt

    pub stmts_mono : (ss : Stmts) → InStmts D P ss → InStmts D Q ss
    stmts_mono Stmts.nil h = tt
    stmts_mono (Stmts.cons s rest) (h, k) = (stmt_mono s h, stmts_mono rest k)

  initial_mono : (o : Option Atom) → InInitial D P o → InInitial D Q o
  initial_mono none h = tt
  initial_mono (some a) h = atom_mono a h

  pub functions_mono : (fs : List (Ident × Function)) → InFunctions D P fs → InFunctions D Q fs
  functions_mono [] h = tt
  functions_mono ((name, f) ∷ rest) (h, k) = (stmt_mono f.body h, functions_mono rest k)

  pub globals_mono : (gs : List (Ident × Global)) → InGlobals D P gs → InGlobals D Q gs
  globals_mono [] h = tt
  globals_mono ((name, g) ∷ rest) (h, k) = (initial_mono g.atom h, globals_mono rest k)
