-- ===== src/NotWasm/FromJanky/Names.antt =====
-- The translation never runs out of fuel, and names the temporaries of a function's body in rising order.
use jankscripten.Prelude.{
  ℕ, ◌≤◌, String, ◌≡◌, refl, sym, subst, true, Option, List, [], ◌∷◌, ◌++◌, arith, Result, ok, err,
  panic, ◌>>=◌, unwrap,
}
use jankscripten.Shared.Ident.{Ident}
use jankscripten.Shared.Types.{JankyType}
use jankscripten.Rope.{Rope, OutOfFuel, join}
use jankscripten.Janky.Syntax
use jankscripten.NotWasm.Types.{NotWasmType}
use jankscripten.NotWasm.Operators.{Lit}
use jankscripten.NotWasm.Syntax.{Atom, Expr, Stmt, Function}
use jankscripten.NotWasm.FromJanky.{
  Run, State, Out, Context, compile_lit, fresh_anf, new_function, prefixed, typ_of, typs_of,
  coercion_to_expr, field_name, prim_call, to_stmts, collected, rope_to_block,
}
use jankscripten.NotWasm.FromJanky.Compile.{
  Kind, Pushed, Compiled, as_compiled, keys_of, count, param_typs, bracket_atom, bracket_set,
  compile_expr, assign_to, name_exprs, name_props, capture_all, compile_stmt, compile_stmts,
  compile_function,
}
use jankscripten.NotWasm.FromJanky.Temporaries.{
  temporaries, in_list, in_list-append, index_of, Rising, Rising-append, Rising-lower, Rising-≤,
  Named, Named-nil, Named-singleton, Named-join, Never, Never->>=, collected-eq,
}
use jankscripten.NotWasm.FromJanky.Contexts.{
  Since, IsReady, prefixed-Since, fresh_anf-index, new_var-Named, recv_a-Since, recv_e-Since,
}
use jankscripten.NotWasm.FromJanky.Parts.{
  Ends, unwrap-Ends, typ_of-Ends, typs_of-Ends, param_typs-Ends, compile_lit-Ends,
  coercion_to_expr-Ends, field_name-Ends, bracket_atom-Ends, bracket_set-Ends, push_members-Named,
  set_keys-Named, rope_to_block-Rising,
}

-- what a compiled statement returns
abbrev pub StmtSince : ℕ → Compiled → Type 0
StmtSince lo (r, s) = Named r lo (index_of s)

-- after something that returns or panics
after-Ends :
    {A B : Type 0} (Q : B → Type 0) (m : Result OutOfFuel A) (f : A → Result OutOfFuel B)
    → Ends m
    → ((a : A) → Never Q (f a))
    → Never Q (m >>= f)
after-Ends Q m f h k = Never->>= (λ _. Unit {0}) Q m f h (λ a _. k a)

-- a result with statements put before it
put_before :
    {W : Type 0} (r : Rope Stmt) (lo mid : ℕ) (m : Run (Out W))
    → Named r lo mid
    → Never (Since mid) m
    → Never (Since {W = W} lo) (m >>= λ out. ok (prefixed r out))
put_before r lo mid m n h =
    Never->>= (Since mid) (Since lo) m _ h (λ out k. prefixed-Since r lo mid out n k)

-- the same with two parts before it
put_both :
    {W : Type 0} (r t : Rope Stmt) (lo mid hi : ℕ) (m : Run (Out W))
    → Named r lo mid
    → Named t mid hi
    → Never (Since hi) m
    → Never (Since {W = W} lo) (m >>= λ out. ok (prefixed r (prefixed t out)))
put_both r t lo mid hi m n k h =
    Never->>= (Since hi) (Since lo) m _ h
      (λ out l. prefixed-Since r lo mid _ n (prefixed-Since t mid hi out k l))

-- an earlier index to count from
counts_from :
    {W : Type 0} (lo lo' : ℕ) (m : Run (Out W))
    → lo' ≤ lo
    → Never (Since lo) m
    → Never (Since {W = W} lo') m
counts_from lo lo' panic l h = tt
counts_from lo lo' (err e) l h = absurd h
counts_from lo lo' (ok (r, pushed, s)) l h = record {
  packed = h.packed;
  rising = Rising-lower lo lo' (index_of s) _ l h.rising;
}

-- the result of an expression as that of a statement
as_statement :
    (lo : ℕ) (m : Run (Out (Unit {0})))
    → Never (Since lo) m
    → Never (StmtSince lo) (m >>= λ out. ok (as_compiled out))
as_statement lo m h = Never->>= (Since lo) (StmtSince lo) m _ h (λ (r, pushed, s) n. n)

nil_Named : (s : State) → Named Rope.nil (index_of s) (index_of s)
nil_Named s = Named-nil (index_of s)

-- a statement that declares no temporary
plain :
    (st : Stmt) (s : State)
    → temporaries st ≡ []
    → Named (Rope.singleton st) (index_of s) (index_of s)
plain st s e =
    Named-singleton st (index_of s) (index_of s)
      (subst (λ xs. Rising (index_of s) xs (index_of s)) (sym e) (omega arith))

-- the state after a function is added has the same generator
same_index :
    (s : State) (name : Ident) (f : Function) → index_of (new_function s name f) ≡ index_of s
unfolding new_function
same_index s name f = refl

abbrev pub ListSince : ℕ → List Stmt × State → Type 0
ListSince lo (ss, s) = Rising lo (in_list ss) (index_of s)

abbrev pub FunctionSince : ℕ → Function × State → Type 0
FunctionSince lo (f, s) = Rising lo (temporaries f.body) (index_of s)

-- a compiled statement as a block, and what is made of the block
pub as_block :
    {B : Type 0} (Q : B → Type 0) (lo : ℕ) (m : Run Compiled) (f : Stmt → State → Run B)
    → Never (StmtSince lo) m
    → ((b : Stmt) (s : State) → Rising lo (temporaries b) (index_of s) → Never Q (f b s))
    → Never Q (m >>= λ (r, s). rope_to_block r >>= λ b. f b s)
as_block Q lo m f h k = Never->>= (StmtSince lo) Q m _ h (λ (r, s) n.
    Never->>= (λ b. Rising lo (temporaries b) (index_of s)) Q (rope_to_block r) _
      (rope_to_block-Rising r lo (index_of s) n) (λ b l. k b s l))

module _ (to_pretty : Ident → String) (methods : String → ℕ → Option (List JankyType)) where
  mutual
    unfolding compile_expr

    expr_names :
        (k : Kind) (s : State) (e : Syntax.Expr) (cxt : Context (Pushed k))
        → IsReady cxt
        → Never (Since {W = Pushed k} (index_of s)) (compile_expr to_pretty methods k s e cxt)
    expr_names k s (Syntax.Expr.js_op op es) cxt ready = tt
    expr_names k s (Syntax.Expr.lit l) cxt ready =
        after-Ends _ (compile_lit l) _ (compile_lit-Ends l)
          (λ l'. recv_a-Since cxt s (Atom.lit l') ready)
    expr_names k s (Syntax.Expr.array members) cxt ready =
        Never->>= (Since {W = Ident} (index_of s)) _ _ _
          (exprs_names s (index_of s) Rope.nil [] members (nil_Named s))
          (λ (stmts, ids, s1) n.
            put_both stmts _ (index_of s) (index_of s1) (index_of (fresh_anf s1).1) _ n
              (push_members-Named _ (fresh_anf s1).0 ids _ _
                (new_var-Named s1 (prim_call "array_new" [])))
              (recv_a-Since cxt (fresh_anf s1).1 (Atom.id (fresh_anf s1).0) ready))
    expr_names k s (Syntax.Expr.object props) cxt ready =
        Never->>= (Since {W = Ident} (index_of s)) _ _ _
          (props_names s (index_of s) Rope.nil [] props (nil_Named s))
          (λ (stmts, ids, s1) n.
            Never->>= (λ rv. Named rv (index_of s1) (index_of (fresh_anf s1).1)) _ _ _
              (set_keys-Named _ (fresh_anf s1).0 (keys_of props) ids _ _
                (new_var-Named s1 Expr.object_empty))
              (λ rv named.
                put_both stmts rv (index_of s) (index_of s1) (index_of (fresh_anf s1).1) _ n named
                  (recv_a-Since cxt (fresh_anf s1).1 (Atom.id (fresh_anf s1).0) ready)))
    expr_names k s (Syntax.Expr.id x t) cxt ready = recv_a-Since cxt s (Atom.id x) ready
    expr_names k s (Syntax.Expr.dot obj field) cxt ready = expr_names k s obj _ (λ s1 o.
        after-Ends _ (field_name field) _ (field_name-Ends field)
          (λ name. recv_a-Since cxt s1 _ ready))
    expr_names k s (Syntax.Expr.unary op e) cxt ready =
        expr_names k s e _ (λ s1 a. recv_a-Since cxt s1 (Atom.unary op a) ready)
    expr_names k s (Syntax.Expr.bracket c f t) cxt ready = expr_names k s c _ (λ s1 c'.
        expr_names k s1 f _ (λ s2 f'.
          after-Ends _ (bracket_atom t c' f') _ (bracket_atom-Ends t c' f')
            (λ a. recv_a-Since cxt s2 a ready)))
    expr_names k s (Syntax.Expr.coercion c e) cxt ready = expr_names k s e _ (λ s1 a.
        after-Ends _ (coercion_to_expr c a) _ (coercion_to_expr-Ends c a)
          (λ b. recv_a-Since cxt s1 b ready))
    expr_names k s (Syntax.Expr.func f) cxt ready =
        Never->>= (FunctionSince (index_of (fresh_anf s).1)) (Since {W = Pushed k} (index_of s))
          (compile_function to_pretty methods (fresh_anf s).1 f) _
          (function_names (fresh_anf s).1 f)
          (λ (f', s2) rising.
            let (name, next) = fresh_anf-index s in
            let later = Rising-≤ _ _ _ rising in
            counts_from (index_of s2) (index_of s) _ (omega arith) (
              recv_a-Since cxt (new_function s2 (fresh_anf s).0 f') (Atom.id (fresh_anf s).0)
                ready))
    expr_names k s (Syntax.Expr.closure f captured) cxt ready =
        Never->>= (FunctionSince (index_of (fresh_anf s).1)) (Since {W = Pushed k} (index_of s))
          (compile_function to_pretty methods (fresh_anf s).1 f) _
          (function_names (fresh_anf s).1 f)
          (λ (f', s2) rising.
            let (name, next) = fresh_anf-index s in
            let later = Rising-≤ _ _ _ rising in
            counts_from (index_of s2) (index_of s) _ (omega arith) (
              Never->>= (Since {W = Atom × NotWasmType} (index_of s2)) _ _ _
                (captured_names (new_function s2 (fresh_anf s).0 f') (index_of s2) Rope.nil []
                  captured (Named-nil (index_of s2)))
                (λ (stmts, env_items, s3) n.
                  put_before stmts (index_of s2) (index_of s3) _ n
                    (recv_e-Since cxt s3 (Expr.closure (fresh_anf s).0 env_items) ready))))
    expr_names k s (Syntax.Expr.binary op e1 e2) cxt ready =
        expr_names k s e1 _ (λ s1 a1.
          expr_names k s1 e2 _ (λ s2 a2. recv_a-Since cxt s2 (Atom.binary op a1 a2) ready))
    expr_names k s (Syntax.Expr.assign lv e) cxt ready =
        expr_names k s e _ (λ s1 a. assign_names k s1 lv a cxt ready)
    expr_names k s (Syntax.Expr.prim_call f args) cxt ready =
        Never->>= (Since {W = Ident} (index_of s)) _ _ _
          (exprs_names s (index_of s) Rope.nil [] args (nil_Named s))
          (λ (stmts, ids, s1) n.
            put_before stmts (index_of s) (index_of s1) _ n
              (recv_e-Since cxt s1 (Expr.prim_call f ids) ready))
    expr_names k s (Syntax.Expr.call f args) cxt ready = expr_names k s f _ (λ s1 fun_id.
        Never->>= (Since {W = Ident} (index_of s1)) _ _ _
          (exprs_names s1 (index_of s1) Rope.nil [] args (nil_Named s1))
          (λ (stmts, ids, s2) n.
            put_before stmts (index_of s1) (index_of s2) _ n
              (recv_e-Since cxt s2 (Expr.closure_call fun_id ids) ready)))
    expr_names k s (Syntax.Expr.method_call obj method args t) cxt ready =
        expr_names k s obj _ (λ s1 obj_id.
          Never->>= (Since {W = Ident} (index_of s1)) _ _ _
            (exprs_names s1 (index_of s1) Rope.nil [] args (nil_Named s1))
            (λ (stmts, ids, s2) n.
              after-Ends _ (unwrap (methods method (count args))) _
                (unwrap-Ends (methods method (count args)))
                (λ ts. after-Ends _ (typs_of ts) _ (typs_of-Ends ts) (λ possible_typs.
                  put_before stmts (index_of s1) (index_of s2) _ n (recv_e-Since cxt s2 _ ready)))))
    expr_names k s (Syntax.Expr.length_of obj t) cxt ready =
        expr_names k s obj _
          (λ s1 x. recv_a-Since cxt s1 (Atom.any_length x (Lit.string "length")) ready)
    expr_names k s (Syntax.Expr.new_ref e t) cxt ready = expr_names k s e _ (λ s1 a.
        after-Ends _ (typ_of t true) _ (typ_of-Ends t true)
          (λ t'. recv_e-Since cxt s1 (Expr.new_ref a t') ready))
    expr_names k s (Syntax.Expr.deref e t) cxt ready = expr_names k s e _ (λ s1 a.
        after-Ends _ (typ_of t true) _ (typ_of-Ends t true)
          (λ t'. recv_a-Since cxt s1 (Atom.deref a t') ready))
    expr_names k s (Syntax.Expr.store into e t) cxt ready =
        expr_names k s into _
          (λ s1 x. expr_names k s1 e _ (λ s2 what. plain (Stmt.store x what) s2 refl))
    expr_names k s (Syntax.Expr.env_get i t) cxt ready =
        after-Ends _ (typ_of t true) _ (typ_of-Ends t true)
          (λ t'. recv_a-Since cxt s (Atom.env_get i t') ready)

    assign_names :
        (k : Kind) (s : State) (lv : Syntax.LValue) (a : Atom) (cxt : Context (Pushed k))
        → IsReady cxt
        → Never (Since {W = Pushed k} (index_of s)) (assign_to to_pretty methods k s lv a cxt)
    assign_names k s (Syntax.LValue.to_id x t) a cxt ready =
        put_before _ (index_of s) (index_of s) _ (plain (Stmt.assign x (Expr.atom a)) s refl)
          (recv_a-Since cxt s a ready)
    assign_names k s (Syntax.LValue.to_dot container field) a cxt ready =
        expr_names k s container _ (λ s1 cont. recv_e-Since cxt s1 _ ready)
    assign_names k s (Syntax.LValue.to_bracket container field t) a cxt ready =
        expr_names k s container _ (λ s1 cont. expr_names k s1 field _ (λ s2 f.
          after-Ends _ (bracket_set t cont f a) _ (bracket_set-Ends t cont f a)
            (λ e. recv_e-Since cxt s2 e ready)))

    exprs_names :
        (s : State) (lo : ℕ) (stmts : Rope Stmt) (ids : List Ident) (es : Syntax.Exprs)
        → Named stmts lo (index_of s)
        → Never (Since {W = Ident} lo) (name_exprs to_pretty methods s stmts ids es)
    exprs_names s lo stmts ids Syntax.Exprs.nil n = n
    exprs_names s lo stmts ids (Syntax.Exprs.cons e es) n =
        Never->>= (Since {W = Ident} (index_of s)) _ _ _
          (expr_names Kind.names s e (Context.id (λ s1 x. ok (Rope.nil, x ∷ [], s1)))
            (λ s1 x. nil_Named s1))
          (λ (more, xs, s1) h.
            exprs_names s1 lo (join stmts more) (ids ++ xs) es
              (Named-join stmts more lo (index_of s) (index_of s1) n h))

    props_names :
        (s : State) (lo : ℕ) (stmts : Rope Stmt) (ids : List Ident) (ps : Syntax.Props)
        → Named stmts lo (index_of s)
        → Never (Since {W = Ident} lo) (name_props to_pretty methods s stmts ids ps)
    props_names s lo stmts ids Syntax.Props.no_props n = n
    props_names s lo stmts ids (Syntax.Props.prop key e rest) n =
        Never->>= (Since {W = Ident} (index_of s)) _ _ _
          (expr_names Kind.names s e (Context.id (λ s1 x. ok (Rope.nil, x ∷ [], s1)))
            (λ s1 x. nil_Named s1))
          (λ (more, xs, s1) h.
            props_names s1 lo (join stmts more) (ids ++ xs) rest
              (Named-join stmts more lo (index_of s) (index_of s1) n h))

    captured_names :
        (s : State) (lo : ℕ) (stmts : Rope Stmt) (env_items : List (Atom × NotWasmType))
        (cs : Syntax.Captured)
        → Named stmts lo (index_of s)
        → Never
            (Since {W = Atom × NotWasmType} lo)
            (capture_all to_pretty methods s stmts env_items cs)
    captured_names s lo stmts env_items Syntax.Captured.no_captured n = n
    captured_names s lo stmts env_items (Syntax.Captured.capture e t rest) n =
        Never->>= (Since {W = Atom × NotWasmType} (index_of s)) _ _ _
          (expr_names Kind.items s e
            (Context.atom (λ s1 a. typ_of t true >>= λ t'. ok (Rope.nil, (a, t') ∷ [], s1)))
            (λ s1 a. after-Ends _ (typ_of t true) _ (typ_of-Ends t true) (λ t'. nil_Named s1)))
          (λ (more, xs, s1) h.
            captured_names s1 lo (join stmts more) (env_items ++ xs) rest
              (Named-join stmts more lo (index_of s) (index_of s1) n h))

    pub stmt_names :
        (s : State) (st : Syntax.Stmt)
        → Never (StmtSince (index_of s)) (compile_stmt to_pretty methods s st)
    stmt_names s (Syntax.Stmt.var x t e) = as_statement (index_of s) _ (
        expr_names Kind.nothing s e _
          (λ s1 e'. after-Ends _ (typ_of t true) _ (typ_of-Ends t true) (λ t'. plain _ s1 refl)))
    stmt_names s (Syntax.Stmt.block ss) =
        Never->>= (ListSince (index_of s)) (StmtSince (index_of s))
          (compile_stmts to_pretty methods s ss) _ (stmts_names s ss)
          (λ (ts, s1) h. Named-singleton (Stmt.block (to_stmts ts)) (index_of s) (index_of s1) h)
    stmt_names s Syntax.Stmt.empty = plain Stmt.empty s refl
    stmt_names s (Syntax.Stmt.expr e) =
        as_statement (index_of s) _ (expr_names Kind.nothing s e _ (λ s1 a. nil_Named s1))
    stmt_names s (Syntax.Stmt.if_ e st1 st2) = as_statement (index_of s) _ (
        expr_names Kind.nothing s e _ (λ s1 a.
          as_block _ (index_of s1) _ _ (stmt_names s1 st1) (λ b1 s2 h1.
            as_block _ (index_of s2) _ _ (stmt_names s2 st2) (λ b2 s3 h2.
              Named-singleton (Stmt.if_ a b1 b2) (index_of s1) (index_of s3) (
                Rising-append (index_of s1) (index_of s2) (index_of s3) (temporaries b1)
                  (temporaries b2) h1 h2)))))
    stmt_names s (Syntax.Stmt.loop body) =
        as_block _ (index_of s) _ _ (stmt_names s body)
          (λ b s1 h. Named-singleton (Stmt.loop b) (index_of s) (index_of s1) h)
    stmt_names s (Syntax.Stmt.for_in x e body) = tt
    stmt_names s (Syntax.Stmt.label x body) =
        as_block _ (index_of s) _ _ (stmt_names s body)
          (λ b s1 h. Named-singleton (Stmt.label _ b) (index_of s) (index_of s1) h)
    stmt_names s (Syntax.Stmt.break x) = plain (Stmt.break _) s refl
    stmt_names s (Syntax.Stmt.catch body x handler) = stmt_names s body
    stmt_names s (Syntax.Stmt.finally body last) = tt
    stmt_names s (Syntax.Stmt.throw e) = nil_Named s
    stmt_names s (Syntax.Stmt.return e) =
        as_statement (index_of s) _
          (expr_names Kind.nothing s e _ (λ s1 a. plain (Stmt.return a) s1 refl))

    stmts_names :
        (s : State) (ss : Syntax.Stmts)
        → Never (ListSince (index_of s)) (compile_stmts to_pretty methods s ss)
    stmts_names s Syntax.Stmts.no_stmts = omega arith
    stmts_names s (Syntax.Stmts.stmt first rest) =
        Never->>= (StmtSince (index_of s)) _ _ _ (stmt_names s first) (λ (r, s1) n.
          Never->>= (λ ts. Rising (index_of s) (in_list ts) (index_of s1)) _ (collected r) _
            (rw (collected-eq r n.packed) n.rising)
            (λ ts h.
              Never->>= (ListSince (index_of s1)) (ListSince (index_of s))
                (compile_stmts to_pretty methods s1 rest) _ (stmts_names s1 rest)
                (λ (us, s2) k.
                  subst (λ xs. Rising (index_of s) xs (index_of s2)) (sym (in_list-append ts us))
                    (Rising-append (index_of s) (index_of s1) (index_of s2) (in_list ts)
                      (in_list us) h k))))

    pub function_names :
        (s : State) (f : Syntax.Func)
        → Never (FunctionSince (index_of s)) (compile_function to_pretty methods s f)
    function_names s (Syntax.Func.make result_typ args body free_vars assigned) =
        after-Ends _ (param_typs args) _ (param_typs-Ends args) (λ ts.
          as_block _ (index_of s) _ _ (stmt_names s body) (λ b s1 h.
            after-Ends _ (typ_of result_typ true) _ (typ_of-Ends result_typ true) (λ t. h)))
