-- ===== src/NotWasm/Syntax.antt =====
-- The abstract syntax of NotWasm (libjankscripten/src/notwasm/syntax.rs). Source positions are left out: no
-- pass reads them.
use jankscripten.Prelude.{ℕ, String, Bool, Option, List}
use jankscripten.Shared.Ident.{Ident}
use jankscripten.NotWasm.Types.{NotWasmType, FnType}
use jankscripten.NotWasm.Operators.{BinaryOp, UnaryOp, Lit, RtsFunction}

mutual
  -- `to_any` carries the type that the type checker fills in.
  pub data Atom : Type 0 where
    lit : Lit → Atom
    prim_app : Ident → Atoms → Atom
    to_any : Atom → Option NotWasmType → Atom
    from_any : Atom → NotWasmType → Atom
    float_to_int : Atom → Atom
    int_to_float : Atom → Atom
    object_get : Atom → Atom → Atom
    any_length : Ident → Lit → Atom
    id : Ident → Atom
    get_prim_func : Ident → Atom
    unary : UnaryOp → Atom → Atom
    binary : BinaryOp → Atom → Atom → Atom
    deref : Atom → NotWasmType → Atom
    env_get : ℕ → NotWasmType → Atom

  pub data Atoms : Type 0 where
    nil : Atoms
    cons : Atom → Atoms → Atoms

pub data Expr : Type 0 where
  array_set : Atom → Atom → Atom → Expr
  call : Ident → List Ident → Expr
  closure_call : Ident → List Ident → Expr
  any_method_call : Ident → Lit → List Ident → List NotWasmType → Expr
  prim_call : RtsFunction → List Ident → Expr
  object_empty : Expr
  object_set : Atom → Atom → Atom → Expr
  new_ref : Atom → NotWasmType → Expr
  atom : Atom → Expr
  closure : Ident → List (Atom × NotWasmType) → Expr

pub record VarStmt : Type 0 where
  pub id : Ident
  pub named : Expr
  pub ty : Option NotWasmType

pub data Label : Type 0 where
  named : String → Label
  app : ℕ → Label

mutual
  pub data Stmt : Type 0 where
    empty : Stmt
    var : VarStmt → Stmt
    expression : Expr → Stmt
    assign : Ident → Expr → Stmt
    store : Ident → Expr → Stmt
    if_ : Atom → Stmt → Stmt → Stmt
    loop : Stmt → Stmt
    label : Label → Stmt → Stmt
    break : Label → Stmt
    return : Atom → Stmt
    block : Stmts → Stmt
    trap : Stmt
    goto : Label → Stmt

  pub data Stmts : Type 0 where
    nil : Stmts
    cons : Stmt → Stmts → Stmts

pub record Function : Type 0 where
  pub body : Stmt
  pub fn_type : FnType
  pub params : List Ident

pub record Global : Type 0 where
  pub is_mut : Bool
  pub ty : NotWasmType
  pub atom : Option Atom

-- The maps are the lists of their entries in the order of iteration. `segment` is the field data.
pub record Program : Type 0 where
  pub rts_fn_imports : List (String × NotWasmType)
  pub functions : List (Ident × Function)
  pub globals : List (Ident × Global)
  pub segment : List ℕ
