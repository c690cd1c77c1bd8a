-- ===== src/NotWasm/Check/Typing.antt =====
-- The typing rules of NotWasm as relations, beside the checker: what it means for atoms, expressions and
-- statements to be well typed.
use jankscripten.Prelude.{ℕ, ◌≡◌, ◌≢◌, true, none, some, List, [], ◌∷◌}
use jankscripten.Shared.Ident.{Ident}
use jankscripten.NotWasm.Types.{NotWasmType, NotWasmTypes, OptType, fn_type, to_list}
use jankscripten.NotWasm.Operators.{
  BinaryOp, UnaryOp, Lit, lit_typ, binary_notwasm_typ, unary_notwasm_typ,
}
use jankscripten.NotWasm.Syntax.{Atom, Atoms}
use jankscripten.NotWasm.Check.{Env, starts_with_env}

-- Which values an `Any` can hold: no `Any`, no reference, no environment, and a first-order function only if
-- it takes an environment.
abbrev pub CanBeAny : NotWasmType → Type 0
CanBeAny NotWasmType.any = ⊥
CanBeAny (NotWasmType.fn f) = starts_with_env f ≡ true
CanBeAny (NotWasmType.ref t) = ⊥
CanBeAny NotWasmType.env = ⊥
CanBeAny _ = Unit {0}

mutual
  pub data AtomHas (Γ : Env) : Atom → NotWasmType → Type 0 where
    lit : {l : Lit} → AtomHas Γ (Atom.lit l) (lit_typ l)
    prim_app :
        {f : Ident} {as_ : Atoms} {formals : NotWasmTypes} {t : NotWasmType}
        → Γ.env f ≡ some (NotWasmType.fn (fn_type formals (OptType.some_type t)))
        → AtomsHave Γ as_ (to_list formals)
        → AtomHas Γ (Atom.prim_app f as_) t
    to_any :
        {a : Atom} {t : NotWasmType}
        → AtomHas Γ a t
        → CanBeAny t
        → AtomHas Γ (Atom.to_any a none) NotWasmType.any
    from_any :
        {a : Atom} {t : NotWasmType} → AtomHas Γ a NotWasmType.any → AtomHas Γ (Atom.from_any a t) t
    float_to_int :
        {a : Atom} → AtomHas Γ a NotWasmType.f64 → AtomHas Γ (Atom.float_to_int a) NotWasmType.i32
    int_to_float :
        {a : Atom} → AtomHas Γ a NotWasmType.i32 → AtomHas Γ (Atom.int_to_float a) NotWasmType.f64
    object_get :
        {a b : Atom}
        → AtomHas Γ a NotWasmType.dyn_object
        → AtomHas Γ b NotWasmType.string
        → AtomHas Γ (Atom.object_get a b) NotWasmType.any
    any_length :
        {x : Ident} {l : Lit}
        → Γ.env x ≡ some NotWasmType.any
        → AtomHas Γ (Atom.any_length x l) NotWasmType.any
    id : {x : Ident} {t : NotWasmType} → Γ.env x ≡ some t → AtomHas Γ (Atom.id x) t
    get_prim_func :
        {x : Ident} {t : NotWasmType} → Γ.env x ≡ some t → AtomHas Γ (Atom.get_prim_func x) t
    unary :
        {op : UnaryOp} {a : Atom} {ti to : NotWasmType}
        → unary_notwasm_typ op true ≡ some (ti, to)
        → AtomHas Γ a ti
        → AtomHas Γ (Atom.unary op a) to
    ptr_eq :
        {a b : Atom} {t : NotWasmType}
        → AtomHas Γ a t
        → AtomHas Γ b t
        → AtomHas Γ (Atom.binary BinaryOp.ptr_eq a b) NotWasmType.bool
    binary :
        {op : BinaryOp} {a b : Atom} {ti to : NotWasmType}
        → op ≢ BinaryOp.ptr_eq
        → binary_notwasm_typ op true ≡ some (ti, to)
        → AtomHas Γ a ti
        → AtomHas Γ b ti
        → AtomHas Γ (Atom.binary op a b) to
    deref :
        {a : Atom} {t : NotWasmType}
        → AtomHas Γ a (NotWasmType.ref t)
        → AtomHas Γ (Atom.deref a t) t
    env_get : {i : ℕ} {t : NotWasmType} → AtomHas Γ (Atom.env_get i t) t

  pub data AtomsHave (Γ : Env) : Atoms → List NotWasmType → Type 0 where
    nil : AtomsHave Γ Atoms.nil []
    cons :
        {a : Atom} {as_ : Atoms} {t : NotWasmType} {ts : List NotWasmType}
        → AtomHas Γ a t
        → AtomsHave Γ as_ ts
        → AtomsHave Γ (Atoms.cons a as_) (t ∷ ts)
