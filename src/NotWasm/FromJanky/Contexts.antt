-- ===== src/NotWasm/FromJanky/Contexts.antt =====
-- What a context sends on keeps temporaries in order.
use jankscripten.Prelude.{ℕ, ◌+◌, ◌≡◌, refl, ap, if_pos, Option, none, some, arith}
use jankscripten.Shared.Ident.{Ident, String-discrete, next_index, fresh}
use jankscripten.Rope.{Rope}
use jankscripten.NotWasm.Syntax.{Atom, Expr, Stmt}
use jankscripten.NotWasm.FromJanky.{
  Run, State, Out, Context, fresh_anf, new_var, prefixed, named_then, recv_id, as_id, recv_a,
  recv_e,
}
use jankscripten.NotWasm.FromJanky.Temporaries.{
  index_of, Named, Named-singleton, Named-join, Never, Never->>=,
}

-- what was made from the index `lo` on
abbrev pub Since : {W : Type 0} → ℕ → Out W → Type 0
Since lo (r, pushed, s) = Named r lo (index_of s)

-- A context sends on what it gets to code that names its temporaries after the state that it gets.
abbrev pub IsReady : {W : Type 0} → Context W → Type 0
IsReady {W = W} (Context.id f) =
    (s : State) (x : Ident) → Never (Since {W = W} (index_of s)) (f s x)
IsReady {W = W} (Context.atom f) =
    (s : State) (a : Atom) → Never (Since {W = W} (index_of s)) (f s a)
IsReady {W = W} (Context.expr f) =
    (s : State) (e : Expr) → Never (Since {W = W} (index_of s)) (f s e)

pub prefixed-Since :
    {W : Type 0} (r : Rope Stmt) (lo mid : ℕ) (out : Out W)
    → Named r lo mid
    → Since mid out
    → Since lo (prefixed r out)
unfolding prefixed
prefixed-Since r lo mid (t, pushed, s) n k = Named-join r t lo mid (index_of s) n k

pub fresh_anf-index :
    (s : State)
    → ((fresh_anf s).0 ≡ Ident.generated "anf" (index_of s))
      × (index_of (fresh_anf s).1 ≡ index_of s + 1)
unfolding fresh_anf fresh
fresh_anf-index s = (
  refl,
  ap next_index
      (if_pos (String-discrete "anf" "anf") refl (some (index_of s)) (s.namegen.next_name "anf")),
)

-- the declaration of a fresh temporary
pub new_var-Named :
    (s : State) (e : Expr)
    → Named (Rope.singleton (new_var (fresh_anf s).0 e)) (index_of s) (index_of (fresh_anf s).1)
new_var-Named s e =
    let (name, next) = fresh_anf-index s in
    Named-singleton (new_var (fresh_anf s).0 e) (index_of s) (index_of (fresh_anf s).1)
      (index_of s, name, omega arith, omega arith)

named_then-Since :
    {W : Type 0} (s : State) (e : Expr) (f : State → Ident → Run (Out W))
    → ((s : State) (x : Ident) → Never (Since (index_of s)) (f s x))
    → Never (Since (index_of s)) (named_then s e f)
unfolding named_then
named_then-Since s e f ready =
    Never->>= (Since (index_of (fresh_anf s).1)) (Since (index_of s))
      (f (fresh_anf s).1 (fresh_anf s).0) _ (ready (fresh_anf s).1 (fresh_anf s).0)
      (λ out h. prefixed-Since _ _ _ out (new_var-Named s e) h)

recv_id-Since :
    {W : Type 0} (s : State) (a : Atom) (f : State → Ident → Run (Out W)) (o : Option Ident)
    → ((s : State) (x : Ident) → Never (Since (index_of s)) (f s x))
    → Never (Since (index_of s)) (recv_id s a f o)
unfolding recv_id
recv_id-Since s a f (some x) ready = ready s x
recv_id-Since s a f none ready = named_then-Since s (Expr.atom a) f ready

pub recv_a-Since :
    {W : Type 0} (cxt : Context W) (s : State) (a : Atom)
    → IsReady cxt
    → Never (Since (index_of s)) (recv_a cxt s a)
unfolding recv_a
recv_a-Since (Context.atom f) s a ready = ready s a
recv_a-Since (Context.id f) s a ready = recv_id-Since s a f (as_id a) ready
recv_a-Since (Context.expr f) s a ready = ready s (Expr.atom a)

pub recv_e-Since :
    {W : Type 0} (cxt : Context W) (s : State) (e : Expr)
    → IsReady cxt
    → Never (Since (index_of s)) (recv_e cxt s e)
unfolding recv_e
recv_e-Since (Context.id f) s e ready = named_then-Since s e f ready
recv_e-Since (Context.atom f) s e ready =
    named_then-Since s e (λ s' x. f s' (Atom.id x)) (λ s' x. ready s' (Atom.id x))
recv_e-Since (Context.expr f) s e ready = ready s e
