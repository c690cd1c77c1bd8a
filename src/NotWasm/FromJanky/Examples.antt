-- ===== src/NotWasm/FromJanky/Examples.antt =====
-- A coercion, a function and a program, translated.
use jankscripten.Prelude.{ℕ, String, ◌≡◌, refl, true, Option, none, some, List, [], ◌∷◌, ok}
use jankscripten.Shared.Ident.{Ident, fresh, new_name_gen, String-discrete}
use jankscripten.Shared.Ident.Freshness.{Distinct}
use jankscripten.Shared.Types.{JankyType, notwasm_typ}
use jankscripten.Shared.Coercions.{Coercion}
use jankscripten.Shared.Coercions.Typing.{Coerces}
use jankscripten.Rope
use jankscripten.Rope.{out_of_fuel, join, into_iter, collect}
use jankscripten.Janky.Syntax
use jankscripten.NotWasm.Types.{NotWasmType, NotWasmTypes, OptType, FnType}
use jankscripten.NotWasm.Operators.{Lit, BinaryOp, lit_typ}
use jankscripten.NotWasm.Syntax.{Atom, Expr, Stmt, Stmts, Function, Program}
use jankscripten.NotWasm.Check.{Env}
use jankscripten.NotWasm.Check.Typing.{AtomHas}
use jankscripten.NotWasm.FromJanky.{
  State, new_function, insert_function, coercion_to_expr, compile_lit, fresh_anf, new_var, prefixed,
  recv_a, recv_e, recv_id, named_then, typ_of, rope_to_block, collected,
}
use jankscripten.NotWasm.FromJanky.Compile.{compile_function, param_typs, from_jankyscript}
use jankscripten.NotWasm.FromJanky.Coerced.{coercion_to_expr-AtomHas}
use jankscripten.NotWasm.FromJanky.Temporaries.{temporaries}
use jankscripten.NotWasm.FromJanky.Distinct.{
  compile_function-Distinct, entry, from_jankyscript-Distinct,
}

abbrev no_names : Env
no_names = record { env = λ x. none; imports = λ x. none }

-- An int becomes a float, and the float an Any.
coercion_to_expr-AtomHas_example :
    (b : Atom) × (t' : NotWasmType) × (coercion_to_expr
        (Coercion.seq Coercion.int_to_float (Coercion.tag JankyType.float))
        (Atom.lit (Lit.i32 7))
      ≡ ok b)
    × (notwasm_typ JankyType.any true ≡ some t')
    × AtomHas no_names b t'
unfolding notwasm_typ lit_typ
coercion_to_expr-AtomHas_example =
    coercion_to_expr-AtomHas no_names (Atom.lit (Lit.i32 7)) NotWasmType.i32
      (Coerces.seq Coerces.int_to_float Coerces.tag) (tt, (NotWasmType.f64, refl, tt)) refl
      AtomHas.lit

abbrev print_name : Ident → String
print_name x = "x"

abbrev no_methods : String → ℕ → Option (List JankyType)
no_methods name n = none

abbrev start : State
start = record { namegen = new_name_gen; functions = [] }

abbrev call_g : Syntax.Expr
call_g =
    Syntax.Expr.call (Syntax.Expr.id (Ident.named "g") JankyType.any)
      (Syntax.Exprs.cons (Syntax.Expr.lit (Syntax.Lit.num (Syntax.Num.int 7))) Syntax.Exprs.nil)

-- the function that returns g(7) + g(7)
abbrev sum : Syntax.Func
sum =
    Syntax.Func.make JankyType.int []
      (Syntax.Stmt.return (Syntax.Expr.binary BinaryOp.i32_add call_g call_g)) [] []

abbrev declared : ℕ → Expr → Stmts → Stmts
declared i e rest = Stmts.cons (new_var (Ident.generated "anf" i) e) rest

abbrev sum_compiled : Function
sum_compiled = record {
  body = Stmt.block (
      declared 0 (Expr.atom (Atom.lit (Lit.i32 7))) (
        declared 1 (Expr.closure_call (Ident.named "g") (Ident.generated "anf" 0 ∷ [])) (
          declared 2 (Expr.atom (Atom.lit (Lit.i32 7))) (
            declared 3 (Expr.closure_call (Ident.named "g") (Ident.generated "anf" 2 ∷ [])) (
              Stmts.cons
                (Stmt.return (
                  Atom.binary BinaryOp.i32_add (Atom.id (Ident.generated "anf" 1))
                    (Atom.id (Ident.generated "anf" 3))))
                Stmts.nil)))));
  fn_type =
      FnType.fn_type (NotWasmTypes.cons NotWasmType.env NotWasmTypes.nil)
        (OptType.some_type NotWasmType.i32);
  params = Ident.bogus "env" ∷ [];
}

abbrev advance : State → State
advance s = (fresh_anf s).1

abbrev after_sum : State
after_sum = advance (advance (advance (advance start)))

compile_function-sum :
    compile_function print_name no_methods start sum ≡ ok (sum_compiled, after_sum)
unfolding compile_function compile_lit fresh_anf prefixed recv_a recv_e recv_id named_then typ_of
    rope_to_block collected join param_typs notwasm_typ into_iter collect Rope.next fresh
    new_name_gen String-discrete
compile_function-sum = refl

compile_function-Distinct_example : Distinct (temporaries sum_compiled.body)
compile_function-Distinct_example =
    compile_function-Distinct print_name no_methods start after_sum sum sum_compiled
      compile_function-sum

abbrev main_compiled : Function
main_compiled = record {
  body = Stmt.block (
      declared 0 (Expr.atom (Atom.lit (Lit.i32 7))) (
        declared 1 (Expr.closure_call (Ident.named "g") (Ident.generated "anf" 0 ∷ [])) Stmts.nil));
  fn_type = FnType.fn_type NotWasmTypes.nil OptType.no_type;
  params = [];
}

abbrev call_g_compiled : Program
call_g_compiled = record {
  rts_fn_imports = [];
  functions = (Ident.named "main", main_compiled) ∷ [];
  globals = [];
  segment = [];
}

from_jankyscript-call_g :
    from_jankyscript print_name no_methods (Syntax.Stmt.expr call_g) ≡ ok call_g_compiled
unfolding from_jankyscript compile_function compile_lit fresh_anf prefixed recv_a recv_e recv_id
    named_then rope_to_block collected join into_iter collect Rope.next fresh new_name_gen
    String-discrete new_function insert_function
from_jankyscript-call_g = refl

from_jankyscript-Distinct_example :
    (f : Function) × (entry (Ident.named "main") call_g_compiled.functions ≡ some f)
    × Distinct (temporaries f.body)
from_jankyscript-Distinct_example =
    from_jankyscript-Distinct print_name no_methods (Syntax.Stmt.expr call_g) call_g_compiled
      from_jankyscript-call_g
