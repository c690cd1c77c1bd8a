-- ===== src/NotWasm/Intern.antt =====
-- Interning of strings (libjankscripten/src/notwasm/intern.rs). A byte is a number. How a string is encoded is Rust's
-- into_bytes, a parameter. Both callers of intern_string pass the contents of a string literal, so its other branch is
-- never reached.
pub mod Layout
pub mod Literals
pub mod Strings
pub mod Walks
pub mod RoundTrip
pub mod Examples
use jankscripten.Prelude.{
  ℕ, ◌+◌, ◌-◌, ◌/◌, ◌%◌, ◌^◌, String, ite, Option, none, some, List, [], ◌∷◌, ◌++◌, length,
  replicate,
}
use jankscripten.Shared.Ident.{String-discrete}
use jankscripten.NotWasm.Operators.{Lit}
use jankscripten.NotWasm.Syntax.{Atom, Expr, Program}
use jankscripten.NotWasm.Walk.{Visitor, walk}

abbrev pub string_tag : List ℕ
string_tag = 0 ∷ 1 ∷ 0 ∷ 0 ∷ []

pub record InternVisitor : Type 0 where
  pub segment : List ℕ
  pub already_interned : List (String × ℕ)

abbrev pub u32 : ℕ → ℕ
u32 n = n % 2 ^ 32

-- the four bytes of `length.to_le()`
abbrev pub to_le : ℕ → List ℕ
to_le n = n % 256 ∷ n / 256 % 256 ∷ n / 65536 % 256 ∷ n / 16777216 % 256 ∷ []

unfoldable pub offset_of : List (String × ℕ) → String → Option ℕ
offset_of [] s = none
offset_of ((t, offset) ∷ rest) s = ite (String-discrete t s) (some offset) (offset_of rest s)

-- the zeros that keep the alignment
abbrev pub padding : ℕ → List ℕ
padding length_of =
    let in_memory_length = u32 (length_of + 8) in replicate (3 - u32 (in_memory_length + 3) % 4) 0

-- what is added to the data for a new string
abbrev pub layout : List ℕ → List ℕ
layout bytes = let n = u32 (length bytes) in string_tag ++ (to_le n ++ (bytes ++ padding n))

module _ (into_bytes : String → List ℕ) where
  unfoldable pub intern_new : InternVisitor → String → Lit × InternVisitor
  intern_new v s =
      let pos = u32 (length v.segment) in
      (
        Lit.interned s pos,
        record {
          segment = v.segment ++ layout (into_bytes s);
          already_interned = (s, pos) ∷ v.already_interned;
        },
      )

  unfoldable pub intern_found : InternVisitor → String → Option ℕ → Lit × InternVisitor
  unfolding intern_new
  intern_found v s (some offset) = (Lit.interned s offset, v)
  intern_found v s none = intern_new v s

  unfoldable pub intern_string : InternVisitor → String → Lit × InternVisitor
  unfolding offset_of intern_found
  intern_string v s = intern_found v s (offset_of v.already_interned s)

  unfoldable pub intern_lit : InternVisitor → Lit → Lit × InternVisitor
  unfolding intern_string
  intern_lit v (Lit.string s) = intern_string v s
  intern_lit v l = (l, v)

  unfoldable pub exit_atom : InternVisitor → Atom → Atom × InternVisitor
  unfolding intern_lit
  exit_atom v (Atom.lit l) = let (l', v') = intern_lit v l in (Atom.lit l', v')
  exit_atom v (Atom.any_length x l) = let (l', v') = intern_lit v l in (Atom.any_length x l', v')
  exit_atom v a = (a, v)

  unfoldable pub exit_expr : InternVisitor → Expr → Expr × InternVisitor
  unfolding intern_lit
  exit_expr v (Expr.any_method_call x l xs tys) =
      let (l', v') = intern_lit v l in (Expr.any_method_call x l' xs tys, v')
  exit_expr v e = (e, v)

  abbrev pub intern_visitor : Visitor InternVisitor
  unfolding exit_atom exit_expr
  intern_visitor = record {
    exit_stmt = λ v s. (s, v);
    exit_expr = exit_expr;
    exit_atom = exit_atom;
  }

  unfoldable pub intern : Program → Program × List (String × ℕ)
  unfolding walk
  intern p =
      let (p', v) = walk intern_visitor (record { segment = []; already_interned = [] }) p in
      (record p' { segment = v.segment }, v.already_interned)
