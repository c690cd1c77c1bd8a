-- ===== src/NotWasm/FromJanky/Compile.antt =====
-- `compile_expr`, `compile_exprs`, `compile_stmt`, `compile_function` and `from_jankyscript` of
-- libjankscripten/src/notwasm/from_jankyscript.rs.
use jankscripten.Prelude.{
  ℕ, suc, String, true, Option, some, List, [], ◌∷◌, ◌++◌, ok, panic, ◌>>=◌, unwrap,
}
use jankscripten.Shared.Ident.{Ident, new_name_gen}
use jankscripten.Shared.Types.{JankyType}
use jankscripten.Rope.{Rope, join}
use jankscripten.Janky.Syntax
use jankscripten.NotWasm.Types.{NotWasmType, NotWasmTypes, OptType, FnType}
use jankscripten.NotWasm.Operators.{Lit}
use jankscripten.NotWasm.Syntax.{Atom, Atoms, Expr, Label, Stmt, Function, Program}
use jankscripten.NotWasm.FromJanky.{
  Run, State, Out, Context, compile_lit, fresh_anf, new_function, new_var, prefixed, recv_a, recv_e,
  typ_of, typs_of, coercion_to_expr, field_name, prim_call, push_members, set_keys, to_stmts,
  collected, rope_to_block,
}

-- the arguments without their types, and their types
abbrev pub names_of : List (Ident × JankyType) → List Ident
names_of [] = []
names_of ((x, t) ∷ rest) = x ∷ names_of rest

unfoldable pub param_typs : List (Ident × JankyType) → Run NotWasmTypes
unfolding typ_of
param_typs [] = ok NotWasmTypes.nil
param_typs ((x, t) ∷ rest) =
    typ_of t true >>= λ t'. param_typs rest >>= λ ts. ok (NotWasmTypes.cons t' ts)

abbrev pub keys_of : Syntax.Props → List Syntax.Key
keys_of Syntax.Props.no_props = []
keys_of (Syntax.Props.prop key e rest) = key ∷ keys_of rest

abbrev pub count : Syntax.Exprs → ℕ
count Syntax.Exprs.nil = 0
count (Syntax.Exprs.cons e es) = suc (count es)

-- An access by brackets at the type that inference gave.
unfoldable pub bracket_atom : JankyType → Atom → Atom → Run Atom
bracket_atom JankyType.array c f =
    ok (Atom.prim_app (Ident.named "array_index") (Atoms.cons c (Atoms.cons f Atoms.nil)))
bracket_atom JankyType.dyn_object c f = ok (Atom.object_get c f)
bracket_atom _ c f = panic

unfoldable pub bracket_set : JankyType → Atom → Atom → Atom → Run Expr
bracket_set JankyType.array c f a = ok (Expr.array_set c f a)
bracket_set JankyType.dyn_object c f a = ok (Expr.object_set c f a)
bracket_set _ c f a = panic

-- the statements and the state of a compiled statement
abbrev pub Compiled : Type 0
Compiled = Rope Stmt × State

-- what the context of an expression pushes to a vector of its caller
pub data Kind : Type 0 where
  names items nothing : Kind

abbrev pub Pushed : Kind → Type 0
Pushed Kind.names = Ident
Pushed Kind.items = Atom × NotWasmType
Pushed Kind.nothing = Unit {0}

-- A statement's contexts push nothing.
abbrev pub as_compiled : Out (Unit {0}) → Compiled
as_compiled (stmts, pushed, s) = (stmts, s)

abbrev pub only : Rope Stmt → State → Run (Out (Unit {0}))
only r s = ok (r, [], s)

-- `to_pretty` prints a name, and `methods` is METHODS_TABLE.
module _ (to_pretty : Ident → String) (methods : String → ℕ → Option (List JankyType)) where
  unfoldable mutual
    unfolding compile_lit fresh_anf new_function prefixed recv_a recv_e typ_of typs_of
        coercion_to_expr field_name push_members set_keys collected rope_to_block join param_typs
        bracket_atom bracket_set

    pub compile_expr : (k : Kind) → State → Syntax.Expr → Context (Pushed k) → Run (Out (Pushed k))
    compile_expr k s (Syntax.Expr.js_op op es) cxt = panic
    compile_expr k s (Syntax.Expr.lit l) cxt = compile_lit l >>= λ l'. recv_a cxt s (Atom.lit l')
    compile_expr k s (Syntax.Expr.array members) cxt =
        name_exprs s Rope.nil [] members >>= λ (stmts, ids, s1).
        let (array_name, s2) = fresh_anf s1 in
        let rv =
          push_members (Rope.singleton (new_var array_name (prim_call "array_new" []))) array_name
            ids in
        recv_a cxt s2 (Atom.id array_name) >>= λ out. ok (prefixed stmts (prefixed rv out))
    compile_expr k s (Syntax.Expr.object props) cxt =
        name_props s Rope.nil [] props >>= λ (stmts, ids, s1).
        let (obj_name, s2) = fresh_anf s1 in
        set_keys (Rope.singleton (new_var obj_name Expr.object_empty)) obj_name (keys_of props) ids
        >>= λ rv. recv_a cxt s2 (Atom.id obj_name) >>= λ out. ok (prefixed stmts (prefixed rv out))
    compile_expr k s (Syntax.Expr.dot obj field) cxt = compile_expr k s obj (
        Context.atom (λ s1 o. field_name field >>= λ name.
        recv_a cxt s1 (Atom.object_get o (Atom.lit (Lit.string name)))))
    compile_expr k s (Syntax.Expr.unary op e) cxt =
        compile_expr k s e (Context.atom (λ s1 a. recv_a cxt s1 (Atom.unary op a)))
    compile_expr k s (Syntax.Expr.bracket c f t) cxt = compile_expr k s c (
        Context.atom (λ s1 c'.
          compile_expr k s1 f
            (Context.atom (λ s2 f'. bracket_atom t c' f' >>= λ a. recv_a cxt s2 a))))
    compile_expr k s (Syntax.Expr.coercion c e) cxt =
        compile_expr k s e (Context.atom (λ s1 a. coercion_to_expr c a >>= λ b. recv_a cxt s1 b))
    compile_expr k s (Syntax.Expr.id x t) cxt = recv_a cxt s (Atom.id x)
    compile_expr k s (Syntax.Expr.func f) cxt =
        let (name, s1) = fresh_anf s in
        compile_function s1 f >>= λ (f', s2). recv_a cxt (new_function s2 name f') (Atom.id name)
    compile_expr k s (Syntax.Expr.closure f captured) cxt =
        let (name, s1) = fresh_anf s in
        compile_function s1 f >>= λ (f', s2).
        capture_all (new_function s2 name f') Rope.nil [] captured >>= λ (stmts, env_items, s3).
        recv_e cxt s3 (Expr.closure name env_items) >>= λ out. ok (prefixed stmts out)
    compile_expr k s (Syntax.Expr.binary op e1 e2) cxt = compile_expr k s e1 (
        Context.atom (λ s1 a1.
          compile_expr k s1 e2 (Context.atom (λ s2 a2. recv_a cxt s2 (Atom.binary op a1 a2)))))
    compile_expr k s (Syntax.Expr.assign lv e) cxt =
        compile_expr k s e (Context.atom (λ s1 a. assign_to k s1 lv a cxt))
    compile_expr k s (Syntax.Expr.prim_call f args) cxt =
        name_exprs s Rope.nil [] args >>= λ (stmts, ids, s1).
        recv_e cxt s1 (Expr.prim_call f ids) >>= λ out. ok (prefixed stmts out)
    compile_expr k s (Syntax.Expr.call f args) cxt = compile_expr k s f (
        Context.id (λ s1 fun_id. name_exprs s1 Rope.nil [] args >>= λ (stmts, ids, s2).
        recv_e cxt s2 (Expr.closure_call fun_id ids) >>= λ out. ok (prefixed stmts out)))
    compile_expr k s (Syntax.Expr.method_call obj method args t) cxt = compile_expr k s obj (
        Context.id (λ s1 obj_id. name_exprs s1 Rope.nil [] args >>= λ (stmts, ids, s2).
        unwrap (methods method (count args)) >>= λ ts. typs_of ts >>= λ possible_typs.
        recv_e cxt s2 (Expr.any_method_call obj_id (Lit.string method) ids possible_typs) >>= λ out.
        ok (prefixed stmts out)))
    compile_expr k s (Syntax.Expr.length_of obj t) cxt =
        compile_expr k s obj
          (Context.id (λ s1 obj_id. recv_a cxt s1 (Atom.any_length obj_id (Lit.string "length"))))
    compile_expr k s (Syntax.Expr.new_ref e t) cxt =
        compile_expr k s e
          (Context.atom (λ s1 a. typ_of t true >>= λ t'. recv_e cxt s1 (Expr.new_ref a t')))
    compile_expr k s (Syntax.Expr.deref e t) cxt =
        compile_expr k s e
          (Context.atom (λ s1 a. typ_of t true >>= λ t'. recv_a cxt s1 (Atom.deref a t')))
    compile_expr k s (Syntax.Expr.store into e t) cxt = compile_expr k s into (
        Context.id (λ s1 x.
          compile_expr k s1 e
            (Context.expr (λ s2 what. ok (Rope.singleton (Stmt.store x what), [], s2)))))
    compile_expr k s (Syntax.Expr.env_get i t) cxt =
        typ_of t true >>= λ t'. recv_a cxt s (Atom.env_get i t')

    -- the `match` on the left-hand side of an assignment
    pub assign_to :
        (k : Kind) → State → Syntax.LValue → Atom → Context (Pushed k) → Run (Out (Pushed k))
    assign_to k s (Syntax.LValue.to_id x t) a cxt =
        recv_a cxt s a >>= λ out. ok (prefixed (Rope.singleton (Stmt.assign x (Expr.atom a))) out)
    assign_to k s (Syntax.LValue.to_dot container field) a cxt = compile_expr k s container (
        Context.atom (λ s1 cont.
          recv_e cxt s1 (Expr.object_set cont (Atom.lit (Lit.string (to_pretty field))) a)))
    assign_to k s (Syntax.LValue.to_bracket container field t) a cxt = compile_expr k s container (
        Context.atom (λ s1 cont.
          compile_expr k s1 field
            (Context.atom (λ s2 f. bracket_set t cont f a >>= λ e. recv_e cxt s2 e))))

    -- the loop of `compile_exprs`, with the statements and the names so far
    pub name_exprs : State → Rope Stmt → List Ident → Syntax.Exprs → Run (Out Ident)
    name_exprs s stmts ids Syntax.Exprs.nil = ok (stmts, ids, s)
    name_exprs s stmts ids (Syntax.Exprs.cons e es) =
        compile_expr Kind.names s e (Context.id (λ s1 x. ok (Rope.nil, x ∷ [], s1)))
        >>= λ (more, xs, s1). name_exprs s1 (join stmts more) (ids ++ xs) es

    -- the same loop over the values of an object
    pub name_props : State → Rope Stmt → List Ident → Syntax.Props → Run (Out Ident)
    name_props s stmts ids Syntax.Props.no_props = ok (stmts, ids, s)
    name_props s stmts ids (Syntax.Props.prop key e rest) =
        compile_expr Kind.names s e (Context.id (λ s1 x. ok (Rope.nil, x ∷ [], s1)))
        >>= λ (more, xs, s1). name_props s1 (join stmts more) (ids ++ xs) rest

    -- the loop over the environment of a closure
    pub capture_all :
        State
        → Rope Stmt
        → List (Atom × NotWasmType)
        → Syntax.Captured
        → Run (Out (Atom × NotWasmType))
    capture_all s stmts env_items Syntax.Captured.no_captured = ok (stmts, env_items, s)
    capture_all s stmts env_items (Syntax.Captured.capture e t rest) =
        compile_expr Kind.items s e
          (Context.atom (λ s1 a. typ_of t true >>= λ t'. ok (Rope.nil, (a, t') ∷ [], s1)))
        >>= λ (more, xs, s1). capture_all s1 (join stmts more) (env_items ++ xs) rest

    pub compile_stmt : State → Syntax.Stmt → Run Compiled
    compile_stmt s (Syntax.Stmt.var x t e) =
        compile_expr Kind.nothing s e (
          Context.expr (λ s1 e'. typ_of t true >>= λ t'.
          only (Rope.singleton (Stmt.var (record { id = x; named = e'; ty = some t' }))) s1))
        >>= λ out. ok (as_compiled out)
    compile_stmt s (Syntax.Stmt.block ss) =
        compile_stmts s ss >>= λ (ss', s1). ok (Rope.singleton (Stmt.block (to_stmts ss')), s1)
    compile_stmt s Syntax.Stmt.empty = ok (Rope.singleton Stmt.empty, s)
    compile_stmt s (Syntax.Stmt.expr e) =
        compile_expr Kind.nothing s e (Context.atom (λ s1 a. only Rope.nil s1)) >>= λ out.
        ok (as_compiled out)
    compile_stmt s (Syntax.Stmt.if_ e then_branch else_branch) =
        compile_expr Kind.nothing s e (
          Context.atom (λ s1 a. compile_stmt s1 then_branch >>= λ (r1, s2).
          rope_to_block r1 >>= λ b1. compile_stmt s2 else_branch >>= λ (r2, s3).
          rope_to_block r2 >>= λ b2. only (Rope.singleton (Stmt.if_ a b1 b2)) s3))
        >>= λ out. ok (as_compiled out)
    compile_stmt s (Syntax.Stmt.loop body) = compile_stmt s body >>= λ (r, s1).
        rope_to_block r >>= λ b. ok (Rope.singleton (Stmt.loop b), s1)
    compile_stmt s (Syntax.Stmt.for_in x e body) = panic
    compile_stmt s (Syntax.Stmt.label x body) = compile_stmt s body >>= λ (r, s1).
        rope_to_block r >>= λ b. ok (Rope.singleton (Stmt.label (Label.named (to_pretty x)) b), s1)
    compile_stmt s (Syntax.Stmt.break x) =
        ok (Rope.singleton (Stmt.break (Label.named (to_pretty x))), s)
    compile_stmt s (Syntax.Stmt.catch body x handler) = compile_stmt s body
    compile_stmt s (Syntax.Stmt.finally body last) = panic
    compile_stmt s (Syntax.Stmt.throw e) = ok (Rope.nil, s)
    compile_stmt s (Syntax.Stmt.return e) =
        compile_expr Kind.nothing s e
          (Context.atom (λ s1 a. only (Rope.singleton (Stmt.return a)) s1))
        >>= λ out. ok (as_compiled out)

    -- `stmts.map(compile_stmt).flatten().collect()`
    pub compile_stmts : State → Syntax.Stmts → Run (List Stmt × State)
    compile_stmts s Syntax.Stmts.no_stmts = ok ([], s)
    compile_stmts s (Syntax.Stmts.stmt first rest) = compile_stmt s first >>= λ (r, s1).
        collected r >>= λ ss. compile_stmts s1 rest >>= λ (ss', s2). ok (ss ++ ss', s2)

    pub compile_function : State → Syntax.Func → Run (Function × State)
    compile_function s (Syntax.Func.make result_typ args body free_vars assigned) =
        param_typs args >>= λ ts. compile_stmt s body >>= λ (r, s1). rope_to_block r >>= λ b.
        typ_of result_typ true >>= λ t. ok (
          record {
            body = b;
            fn_type = FnType.fn_type (NotWasmTypes.cons NotWasmType.env ts) (OptType.some_type t);
            params = Ident.bogus "env" ∷ names_of args;
          },
          s1,
        )

  unfoldable pub from_jankyscript : Syntax.Stmt → Run Program
  unfolding compile_stmt rope_to_block new_function
  from_jankyscript p =
      compile_stmt (record { namegen = new_name_gen; functions = [] }) p >>= λ (r, s).
      rope_to_block r >>= λ main_body.
      let main : Function = record {
        body = main_body;
        fn_type = FnType.fn_type NotWasmTypes.nil OptType.no_type;
        params = [];
      } in
      let all = new_function s (Ident.named "main") main in
      ok (record { rts_fn_imports = []; functions = all.functions; globals = []; segment = [] })
