-- ===== src/Janky/Syntax.antt =====
-- The abstract syntax of JankyScript (libjankscripten/src/jankyscript/syntax.rs), without source positions and without
-- what type inference keeps in an operator of JavaScript.
use jankscripten.Prelude.{ℕ, String, Bool, List}
use jankscripten.Shared.Ident.{Ident}
use jankscripten.Shared.Types.{JankyType}
use jankscripten.Shared.Coercions.{Coercion}
use jankscripten.NotWasm.Operators.{BinaryOp, UnaryOp, RtsFunction}

-- A floating-point number is its bit pattern, and so is an integer.
pub data Num : Type 0 where
  int float : ℕ → Num

pub data Lit : Type 0 where
  string : String → Lit
  regex : String → String → Lit
  bool : Bool → Lit
  null undefined : Lit
  num : Num → Lit

pub data Key : Type 0 where
  int : ℕ → Key
  str : String → Key

pub data JsUnaryOp : Type 0 where
  minus plus not_ tilde type_of void delete : JsUnaryOp

pub data JsBinaryOp : Type 0 where
  equal not_equal strict_equal strict_not_equal less_than greater_than less_than_equal : JsBinaryOp
  greater_than_equal left_shift right_shift unsigned_right_shift plus minus times over : JsBinaryOp
  mod_ or xor and in_ instance_of power_of : JsBinaryOp

pub data JsOp : Type 0 where
  binary : JsBinaryOp → JsOp
  unary : JsUnaryOp → JsOp

mutual
  pub data LValue : Type 0 where
    to_id : Ident → JankyType → LValue
    to_dot : Expr → Ident → LValue
    to_bracket : Expr → Expr → JankyType → LValue

  -- The result type, the arguments, the body, and what the pass on free variables fills in.
  pub data Func : Type 0 where
    make :
        JankyType
        → List (Ident × JankyType)
        → Stmt
        → (free_vars : List (Ident × JankyType)) → (assigned_free_children : List Ident) → Func

  pub data Expr : Type 0 where
    lit : Lit → Expr
    array : Exprs → Expr
    object : Props → Expr
    id : Ident → JankyType → Expr
    dot : Expr → Ident → Expr
    bracket : Expr → Expr → JankyType → Expr
    js_op : JsOp → Exprs → Expr
    unary : UnaryOp → Expr → Expr
    binary : BinaryOp → Expr → Expr → Expr
    assign : LValue → Expr → Expr
    call : Expr → Exprs → Expr
    method_call : Expr → String → Exprs → JankyType → Expr
    prim_call : RtsFunction → Exprs → Expr
    length_of : Expr → JankyType → Expr
    func : Func → Expr
    closure : Func → Captured → Expr
    coercion : Coercion → Expr → Expr
    new_ref : Expr → JankyType → Expr
    deref : Expr → JankyType → Expr
    store : Expr → Expr → JankyType → Expr
    env_get : ℕ → JankyType → Expr

  pub data Exprs : Type 0 where
    nil : Exprs
    cons : Expr → Exprs → Exprs

  pub data Props : Type 0 where
    no_props : Props
    prop : Key → Expr → Props → Props

  pub data Captured : Type 0 where
    no_captured : Captured
    capture : Expr → JankyType → Captured → Captured

  pub data Stmt : Type 0 where
    var : Ident → JankyType → Expr → Stmt
    block : Stmts → Stmt
    empty : Stmt
    expr : Expr → Stmt
    if_ : Expr → Stmt → Stmt → Stmt
    loop : Stmt → Stmt
    for_in : Ident → Expr → Stmt → Stmt
    label : Ident → Stmt → Stmt
    break : Ident → Stmt
    catch : Stmt → Ident → Stmt → Stmt
    finally : Stmt → Stmt → Stmt
    throw : Expr → Stmt
    return : Expr → Stmt

  pub data Stmts : Type 0 where
    no_stmts : Stmts
    stmt : Stmt → Stmts → Stmts
