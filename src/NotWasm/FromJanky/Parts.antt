-- ===== src/NotWasm/FromJanky/Parts.antt =====
-- The helpers of the translation do not run out of fuel, and keep temporaries in order.
use jankscripten.Prelude.{
  ℕ, Bool, true, false, Option, none, some, List, [], ◌∷◌, arith, Result, ok, ◌>>=◌, unwrap,
}
use jankscripten.Shared.Ident.{Ident, into_name}
use jankscripten.Shared.Types.{JankyType, notwasm_typ}
use jankscripten.Shared.Coercions.{Coercion}
use jankscripten.Rope.{Rope, OutOfFuel, join}
use jankscripten.Janky.Syntax
use jankscripten.NotWasm.Syntax.{Atom, Expr, Stmt}
use jankscripten.NotWasm.FromJanky.{
  compile_lit, typ_of, typs_of, coercion_to_expr, field_name, push_members, set_keys, rope_to_block,
}
use jankscripten.NotWasm.FromJanky.Compile.{param_typs, bracket_atom, bracket_set}
use jankscripten.NotWasm.FromJanky.Temporaries.{
  temporaries, Rising, Named, Named-singleton, Named-join, Never, Never->>=, collected-eq,
}

-- returns or panics
abbrev pub Ends {ℓ} : {A : Type ℓ} → Result OutOfFuel A → Type 0
Ends m = Never (λ _. Unit {0}) m

pub unwrap-Ends : {A : Type 0} (o : Option A) → Ends (unwrap o)
unwrap-Ends none = tt
unwrap-Ends (some a) = tt

pub typ_of-Ends : (t : JankyType) (c : Bool) → Ends (typ_of t c)
unfolding typ_of
typ_of-Ends t c = unwrap-Ends (notwasm_typ t c)

then_ok : {A B : Type 0} (m : Result OutOfFuel A) (f : A → B) → Ends m → Ends (m >>= λ a. ok (f a))
then_ok m f h = Never->>= (λ _. Unit {0}) (λ _. Unit {0}) m (λ a. ok (f a)) h (λ a _. tt)

pub typs_of-Ends : (ts : List JankyType) → Ends (typs_of ts)
unfolding typs_of
typs_of-Ends [] = tt
typs_of-Ends (t ∷ ts) =
    Never->>= (λ _. Unit {0}) (λ _. Unit {0}) (typ_of t false) _ (typ_of-Ends t false)
      (λ t' _. then_ok (typs_of ts) (λ ts'. t' ∷ ts') (typs_of-Ends ts))

pub param_typs-Ends : (args : List (Ident × JankyType)) → Ends (param_typs args)
unfolding param_typs
param_typs-Ends [] = tt
param_typs-Ends ((x, t) ∷ rest) =
    Never->>= (λ _. Unit {0}) (λ _. Unit {0}) (typ_of t true) _ (typ_of-Ends t true)
      (λ t' _. then_ok (param_typs rest) _ (param_typs-Ends rest))

pub compile_lit-Ends : (l : Syntax.Lit) → Ends (compile_lit l)
unfolding compile_lit
compile_lit-Ends (Syntax.Lit.string s) = tt
compile_lit-Ends (Syntax.Lit.regex r flags) = tt
compile_lit-Ends (Syntax.Lit.bool b) = tt
compile_lit-Ends Syntax.Lit.null = tt
compile_lit-Ends Syntax.Lit.undefined = tt
compile_lit-Ends (Syntax.Lit.num (Syntax.Num.int n)) = tt
compile_lit-Ends (Syntax.Lit.num (Syntax.Num.float x)) = tt

pub coercion_to_expr-Ends : (c : Coercion) (a : Atom) → Ends (coercion_to_expr c a)
unfolding coercion_to_expr
coercion_to_expr-Ends Coercion.float_to_int a = tt
coercion_to_expr-Ends Coercion.int_to_float a = tt
coercion_to_expr-Ends (Coercion.tag t) a = tt
coercion_to_expr-Ends (Coercion.untag t) a = then_ok (typ_of t true) _ (typ_of-Ends t true)
coercion_to_expr-Ends (Coercion.fun args ret) a = tt
coercion_to_expr-Ends (Coercion.id t) a = tt
coercion_to_expr-Ends (Coercion.seq c1 c2) a =
    Never->>= (λ _. Unit {0}) (λ _. Unit {0}) (coercion_to_expr c1 a) _ (coercion_to_expr-Ends c1 a)
      (λ b _. coercion_to_expr-Ends c2 b)
coercion_to_expr-Ends (Coercion.meta s t) a = tt

pub field_name-Ends : (x : Ident) → Ends (field_name x)
unfolding field_name into_name
field_name-Ends (Ident.named s) = tt
field_name-Ends (Ident.generated s i) = tt
field_name-Ends (Ident.bogus s) = tt

pub bracket_atom-Ends : (t : JankyType) (c f : Atom) → Ends (bracket_atom t c f)
unfolding bracket_atom
bracket_atom-Ends JankyType.array c f = tt
bracket_atom-Ends JankyType.dyn_object c f = tt
bracket_atom-Ends _ c f = tt

pub bracket_set-Ends : (t : JankyType) (c f a : Atom) → Ends (bracket_set t c f a)
unfolding bracket_set
bracket_set-Ends JankyType.array c f a = tt
bracket_set-Ends JankyType.dyn_object c f a = tt
bracket_set-Ends _ c f a = tt

-- a statement that declares nothing, after others
then_expression :
    (rv : Rope Stmt) (e : Expr) (lo hi : ℕ)
    → Named rv lo hi
    → Named (join rv (Rope.singleton (Stmt.expression e))) lo hi
then_expression rv e lo hi n =
    Named-join rv _ lo hi hi n (Named-singleton (Stmt.expression e) hi hi (omega arith))

pub push_members-Named :
    (rv : Rope Stmt) (x : Ident) (ids : List Ident) (lo hi : ℕ)
    → Named rv lo hi
    → Named (push_members rv x ids) lo hi
unfolding push_members
push_members-Named rv x [] lo hi n = n
push_members-Named rv x (y ∷ ids) lo hi n =
    push_members-Named _ x ids lo hi (then_expression rv _ lo hi n)

pub set_keys-Named :
    (rv : Rope Stmt) (x : Ident) (keys : List Syntax.Key) (ids : List Ident) (lo hi : ℕ)
    → Named rv lo hi
    → Never (λ r. Named r lo hi) (set_keys rv x keys ids)
unfolding set_keys
set_keys-Named rv x (Syntax.Key.str key ∷ keys) (y ∷ ids) lo hi n =
    set_keys-Named _ x keys ids lo hi (then_expression rv _ lo hi n)
set_keys-Named rv x (Syntax.Key.int i ∷ keys) (y ∷ ids) lo hi n = tt
set_keys-Named rv x (Syntax.Key.str key ∷ keys) [] lo hi n = n
set_keys-Named rv x (Syntax.Key.int i ∷ keys) [] lo hi n = n
set_keys-Named rv x [] ids lo hi n = n

pub rope_to_block-Rising :
    (r : Rope Stmt) (lo hi : ℕ)
    → Named r lo hi
    → Never (λ b. Rising lo (temporaries b) hi) (rope_to_block r)
unfolding rope_to_block
rope_to_block-Rising r lo hi n = rw (collected-eq r n.packed) n.rising
