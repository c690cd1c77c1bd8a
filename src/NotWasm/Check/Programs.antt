-- ===== src/NotWasm/Check/Programs.antt =====
-- `type_check_function` and `type_check`. The checker starts from the table of the runtime that `Env::new` builds,
-- which is an argument here.
use jankscripten.Prelude.{
  String, Option, none, some, List, [], ◌∷◌, ◌==◌, if◌then◌else◌, length, ok, err, ◌>>=◌,
}
use jankscripten.Shared.Ident.{Ident, named}
use jankscripten.NotWasm.Types.{NotWasmType, args, result, to_list, to_option}
use jankscripten.NotWasm.Syntax.{Function, Global, Program}
use jankscripten.NotWasm.Check.{
  Env, TypeMap, insert_in, update, insert, Checked, arity_mismatch, multiply_defined, ensure,
}
use jankscripten.NotWasm.Check.Atoms.{type_check_atom}
use jankscripten.NotWasm.Check.Stmts.{type_check_stmt}

-- `Env::new`, from the runtime's bindings
abbrev pub new_env : TypeMap → Env
new_env bindings = record { env = bindings; imports = bindings }

unfoldable pub bind_params : Env → List Ident → List NotWasmType → Env
bind_params Γ (x ∷ xs) (t ∷ ts) = bind_params (update Γ x t) xs ts
bind_params Γ _ _ = Γ

unfoldable pub type_check_function : Env → Ident → Function → Checked Function
unfolding bind_params
type_check_function Γ x f =
    let arg_tys = to_list (args f.fn_type) in
    if length arg_tys == length f.params
    then (type_check_stmt (bind_params Γ f.params arg_tys) f.body (to_option (result f.fn_type))
        >>= λ (_, body'). ok (record f { body = body' }))
    else err (arity_mismatch x (length f.params) (length arg_tys))

unfoldable pub bind_imports : Env → List (String × NotWasmType) → Env
bind_imports Γ [] = Γ
bind_imports Γ ((x, t) ∷ rest) =
    bind_imports
      (record { env = insert_in Γ.env (named x) t; imports = insert_in Γ.imports (named x) t }) rest

-- `env.insert(..).is_some()` is an error
unfoldable pub if_new : Ident → Env → Option NotWasmType → Checked Env
if_new x Γ none = ok Γ
if_new x Γ (some old) = err (multiply_defined x)

unfoldable pub bind_new : Env → Ident → NotWasmType → Checked Env
unfolding if_new
bind_new Γ x t = let (Γ', old) = insert Γ x t in if_new x Γ' old

unfoldable pub bind_functions : Env → List (Ident × Function) → Checked Env
bind_functions Γ [] = ok Γ
bind_functions Γ ((x, f) ∷ rest) = do
  Γ' ← bind_new Γ x (NotWasmType.fn f.fn_type)
  bind_functions Γ' rest

unfoldable pub check_initial : Env → Global → Checked Global
check_initial Γ g = elim g.atom [
  | none ↦ ok g
  | some a ↦
      type_check_atom Γ a >>= λ (got, a'). ensure g.ty got >>= λ _. ok (record g { atom = some a' })
]

unfoldable pub bind_globals : Env → List (Ident × Global) → Checked (Env × List (Ident × Global))
unfolding check_initial
bind_globals Γ [] = ok (Γ, [])
bind_globals Γ ((x, g) ∷ rest) = check_initial Γ g >>= λ g'.
    bind_new Γ x g.ty >>= λ Γ'. bind_globals Γ' rest >>= λ (Γ'', rest'). ok (Γ'', (x, g') ∷ rest')

unfoldable pub type_check_functions :
    Env → List (Ident × Function) → Checked (List (Ident × Function))
type_check_functions Γ [] = ok []
type_check_functions Γ ((x, f) ∷ rest) = do
  f' ← type_check_function Γ x f
  rest' ← type_check_functions Γ rest
  ok ((x, f') ∷ rest')

unfoldable pub type_check : TypeMap → Program → Checked Program
unfolding bind_imports bind_functions bind_globals type_check_functions
type_check bindings p =
    bind_functions (bind_imports (new_env bindings) p.rts_fn_imports) p.functions >>= λ Γ.
    bind_globals Γ p.globals >>= λ (Γ', globals').
    type_check_functions Γ' p.functions >>= λ functions'.
    ok (record p { functions = functions'; globals = globals' })
