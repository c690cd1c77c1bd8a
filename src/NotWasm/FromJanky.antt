-- ===== src/NotWasm/FromJanky.antt =====
-- The translation of JankyScript to NotWasm (libjankscripten/src/notwasm/from_jankyscript.rs), a variant of
-- A-normalization: the state, the contexts that receive what an expression becomes, and the helpers of
-- the translation, which is in Compile. A closure that a context boxes is a function that takes and
-- returns the state; what it pushes to a vector of its caller is a list beside the statements. The
-- printer of names and the table of methods are parameters.
pub mod Compile
pub mod Coerced
pub mod Temporaries
pub mod Contexts
pub mod Parts
pub mod Names
pub mod Distinct
pub mod Examples
use jankscripten.Prelude.{
  ◌+◌, String, ite, Bool, true, false, Option, none, some, List, [], ◌∷◌, Result, ok, err, panic,
  ◌>>=◌, unwrap,
}
use jankscripten.Shared.Ident.{Ident, Ident-discrete, NameGen, fresh, into_name}
use jankscripten.Shared.Types.{JankyType, notwasm_typ}
use jankscripten.Shared.Coercions.{Coercion}
use jankscripten.Rope.{Rope, OutOfFuel, join, into_iter, collect}
use jankscripten.Rope.Iterate.{nodes}
use jankscripten.Janky.Syntax
use jankscripten.NotWasm.Types.{NotWasmType}
use jankscripten.NotWasm.Operators.{Lit, RtsFunction}
use jankscripten.NotWasm.Syntax.{Atom, Expr, Stmt, Stmts, Function}

abbrev pub Run : Type 0 → Type 0
Run A = Result OutOfFuel A

-- A regular expression is a `todo!`.
unfoldable pub compile_lit : Syntax.Lit → Run Lit
compile_lit (Syntax.Lit.string s) = ok (Lit.string s)
compile_lit (Syntax.Lit.regex r flags) = panic
compile_lit (Syntax.Lit.bool b) = ok (Lit.bool b)
compile_lit Syntax.Lit.null = ok Lit.null
compile_lit Syntax.Lit.undefined = ok Lit.undefined
compile_lit (Syntax.Lit.num (Syntax.Num.int n)) = ok (Lit.i32 n)
compile_lit (Syntax.Lit.num (Syntax.Num.float x)) = ok (Lit.f64 x)

-- `S`
pub record State : Type 0 where
  pub namegen : NameGen
  pub functions : List (Ident × Function)

unfoldable pub fresh_anf : State → Ident × State
unfolding fresh
fresh_anf s = let (x, namegen') = fresh s.namegen "anf" in (x, record s { namegen = namegen' })

-- `HashMap::insert`: a function of the same name is replaced.
unfoldable pub insert_function :
    List (Ident × Function) → Ident → Function → List (Ident × Function)
unfolding Ident-discrete
insert_function [] name f = (name, f) ∷ []
insert_function ((other, g) ∷ rest) name f =
    ite (Ident-discrete other name) ((name, f) ∷ rest) ((other, g) ∷ insert_function rest name f)

unfoldable pub new_function : State → Ident → Function → State
unfolding insert_function
new_function s name f = record s { functions = insert_function s.functions name f }

-- the statements, what was pushed, and the state
abbrev pub Out : Type 0 → Type 0
Out W = Rope Stmt × List W × State

-- `C`
pub data Context (W : Type 0) : Type 0 where
  id : (State → Ident → Run (Out W)) → Context W
  atom : (State → Atom → Run (Out W)) → Context W
  expr : (State → Expr → Run (Out W)) → Context W

abbrev pub new_var : Ident → Expr → Stmt
new_var x e = Stmt.var (record { id = x; named = e; ty = none })

-- statements before those of a result
unfoldable pub prefixed : {W : Type 0} → Rope Stmt → Out W → Out W
unfolding join
prefixed r (stmts, pushed, s) = (join r stmts, pushed, s)

-- The result is named, and its name sent on.
unfoldable pub named_then :
    {W : Type 0} → State → Expr → (State → Ident → Run (Out W)) → Run (Out W)
unfolding fresh_anf prefixed
named_then s e f =
    let (x, s') = fresh_anf s in f s' x >>= λ out. ok (prefixed (Rope.singleton (new_var x e)) out)

abbrev pub as_id : Atom → Option Ident
as_id (Atom.id x) = some x
as_id _ = none

unfoldable pub recv_id :
    {W : Type 0} → State → Atom → (State → Ident → Run (Out W)) → Option Ident → Run (Out W)
unfolding named_then
recv_id s a f (some x) = f s x
recv_id s a f none = named_then s (Expr.atom a) f

unfoldable pub recv_a : {W : Type 0} → Context W → State → Atom → Run (Out W)
unfolding recv_id
recv_a (Context.atom f) s a = f s a
recv_a (Context.id f) s a = recv_id s a f (as_id a)
recv_a (Context.expr f) s a = f s (Expr.atom a)

unfoldable pub recv_e : {W : Type 0} → Context W → State → Expr → Run (Out W)
unfolding named_then
recv_e (Context.id f) s e = named_then s e f
recv_e (Context.atom f) s e = named_then s e (λ s' x. f s' (Atom.id x))
recv_e (Context.expr f) s e = f s e

-- `ty.notwasm_typ(..)`, which panics on a type that inference left open
unfoldable pub typ_of : JankyType → Bool → Run NotWasmType
unfolding notwasm_typ
typ_of t allow_closure = unwrap (notwasm_typ t allow_closure)

unfoldable pub typs_of : List JankyType → Run (List NotWasmType)
unfolding typ_of
typs_of [] = ok []
typs_of (t ∷ ts) = typ_of t false >>= λ t'. typs_of ts >>= λ ts'. ok (t' ∷ ts')

-- A coercion of functions is a `todo!`, and a coercion that inference left open a panic.
unfoldable pub coercion_to_expr : Coercion → Atom → Run Atom
unfolding typ_of
coercion_to_expr Coercion.float_to_int a = ok (Atom.float_to_int a)
coercion_to_expr Coercion.int_to_float a = ok (Atom.int_to_float a)
coercion_to_expr (Coercion.tag t) a = ok (Atom.to_any a none)
coercion_to_expr (Coercion.untag t) a = typ_of t true >>= λ t'. ok (Atom.from_any a t')
coercion_to_expr (Coercion.fun args ret) a = panic
coercion_to_expr (Coercion.id t) a = ok a
coercion_to_expr (Coercion.seq c1 c2) a = coercion_to_expr c1 a >>= λ b. coercion_to_expr c2 b
coercion_to_expr (Coercion.meta s t) a = panic

-- `Id::into_name` of the field of a dot
unfoldable pub field_name : Ident → Run String
unfolding into_name
field_name x = from_name (into_name x)
  where
    from_name : Result ⊥ String → Run String
    from_name (ok s) = ok s
    from_name (err e) = absurd e
    from_name panic = panic

abbrev pub prim_call : String → List Ident → Expr
prim_call name args = Expr.prim_call (RtsFunction.import name) args

-- the loop that fills a new array
unfoldable pub push_members : Rope Stmt → Ident → List Ident → Rope Stmt
unfolding join
push_members rv array_name [] = rv
push_members rv array_name (x ∷ xs) =
    push_members
      (join rv (Rope.singleton (Stmt.expression (prim_call "array_push" (array_name ∷ x ∷ [])))))
      array_name xs

-- The loop that fills a new object, over the keys zipped with the names; an integer key is a `todo!`.
unfoldable pub set_keys : Rope Stmt → Ident → List Syntax.Key → List Ident → Run (Rope Stmt)
unfolding join
set_keys rv obj_name (Syntax.Key.str key ∷ keys) (x ∷ xs) =
    set_keys
      (join rv (
        Rope.singleton (
          Stmt.expression
            (Expr.object_set (Atom.id obj_name) (Atom.lit (Lit.string key)) (Atom.id x)))))
      obj_name keys xs
set_keys rv obj_name (Syntax.Key.int n ∷ keys) (x ∷ xs) = panic
set_keys rv obj_name (key ∷ keys) [] = ok rv
set_keys rv obj_name [] xs = ok rv

abbrev pub to_stmts : List Stmt → Stmts
to_stmts [] = Stmts.nil
to_stmts (s ∷ ss) = Stmts.cons s (to_stmts ss)

-- `rope.into_iter().collect()`; the fuel is enough for every rope without a hidden `nil`
unfoldable pub collected : Rope Stmt → Run (List Stmt)
unfolding into_iter collect
collected r = collect (nodes r + 1) (nodes r + 1) (into_iter r)

unfoldable pub rope_to_block : Rope Stmt → Run Stmt
unfolding collected
rope_to_block r = collected r >>= λ ss. ok (Stmt.block (to_stmts ss))
