-- ===== src/NotWasm/Intern/Strings.antt =====
-- Interning a whole program.
use jankscripten.Prelude.{
  ℕ, ◌%◌, String, ◌≡◌, refl, sym, subst, ◌∙◌, ◌≢◌, if_pos, if_neg, true, false, Option, none, some,
  List, [], ◌∷◌, ◌++◌, arith, length, length-append,
}
use mathlib.Core.List.{append-nil}
use jankscripten.Prelude.{some-inj}
use jankscripten.Shared.Ident.{String-discrete}
use jankscripten.NotWasm.Operators.{Lit}
use jankscripten.NotWasm.Intern.{
  InternVisitor, u32, layout, offset_of, intern_new, intern_found, intern_string, intern_lit,
}
use jankscripten.NotWasm.Intern.Layout.{Fits, Stored, Stored-append, Stored-new, layout-aligned}

-- a literal of a parsed program: nothing is interned yet
abbrev pub RawLit : Lit → Type 0
RawLit (Lit.interned s offset) = true ≡ false
RawLit _ = Unit {0}

-- a literal that is no string
abbrev pub PlainLit : Lit → Type 0
PlainLit (Lit.interned s offset) = true ≡ false
PlainLit (Lit.string s) = true ≡ false
PlainLit _ = Unit {0}

pub offset_of-hit :
    (s t : String) (offset : ℕ) (rest : List (String × ℕ))
    → s ≡ t
    → offset_of ((s, offset) ∷ rest) t ≡ some offset
unfolding offset_of
offset_of-hit s t offset rest same = rw (if_pos (String-discrete s t) same)

offset_of-miss :
    (s t : String) (offset : ℕ) (rest : List (String × ℕ))
    → s ≢ t
    → offset_of ((s, offset) ∷ rest) t ≡ offset_of rest t
unfolding offset_of
offset_of-miss s t offset rest other = rw (if_neg (String-discrete s t) other)

module _ (into_bytes : String → List ℕ) where
  -- no string, or an interned one whose bytes are stored at its offset, if 32 bits address the data
  abbrev pub InternedIn : List ℕ → Lit → Type 0
  InternedIn segment (Lit.string s) = true ≡ false
  InternedIn segment (Lit.interned s offset) = Fits segment → Stored segment (into_bytes s) offset
  InternedIn segment _ = Unit {0}

  pub InternedIn-append :
      (segment more : List ℕ) (l : Lit) → InternedIn segment l → InternedIn (segment ++ more) l
  InternedIn-append segment more (Lit.string s) h = h
  InternedIn-append segment more (Lit.interned s offset) h = λ fits.
      Stored-append segment more (into_bytes s) offset
        (h (let e = length-append segment more in omega arith))
  InternedIn-append segment more (Lit.bool b) h = tt
  InternedIn-append segment more (Lit.i32 n) h = tt
  InternedIn-append segment more (Lit.f64 n) h = tt
  InternedIn-append segment more Lit.undefined h = tt
  InternedIn-append segment more Lit.null h = tt

  pub record Inv (v : InternVisitor) : Type 0 where
    pub aligned : length v.segment % 4 ≡ 0
    pub placed :
        (s : String) (offset : ℕ)
        → offset_of v.already_interned s ≡ some offset
        → Fits v.segment
        → Stored v.segment (into_bytes s) offset

  -- `v'` is reached from `v`, and its data satisfies `G`.
  pub record Grown (v v' : InternVisitor) (G : List ℕ → Type 0) : Type 0 where
    pub inv : Inv v'
    pub more : List ℕ
    pub extends : v'.segment ≡ v.segment ++ more
    pub good : G v'.segment

  intern_new-Grown :
      (v : InternVisitor) (s : String)
      → Inv v
      → let (l, v') = intern_new into_bytes v s in Grown v v' (λ seg. InternedIn seg l)
  unfolding intern_new offset_of
  intern_new-Grown v s i =
      let whole = length-append v.segment (layout (into_bytes s)) in
      let part = layout-aligned (into_bytes s) in
      let before = i.aligned in
      record {
        inv = record {
          aligned = omega arith;
          placed = λ t offset e fits. elim (String-discrete s t) [
            | yes same ↦
                let e' : some (u32 (length v.segment)) ≡ some offset =
                  sym (offset_of-hit s t (u32 (length v.segment)) v.already_interned same) ∙ e in
                subst (λ t. Stored (v.segment ++ layout (into_bytes s)) (into_bytes t) offset) same
                  (subst (Stored (v.segment ++ layout (into_bytes s)) (into_bytes s)) (some-inj e')
                    (Stored-new v.segment (into_bytes s) i.aligned fits))
            | no other ↦ Stored-append v.segment (layout (into_bytes s)) (into_bytes t) offset (
                i.placed t offset
                  (sym (offset_of-miss s t (u32 (length v.segment)) v.already_interned other) ∙ e)
                  (omega arith))
          ];
        };
        more = layout (into_bytes s);
        extends = refl;
        good = λ fits. Stored-new v.segment (into_bytes s) i.aligned fits;
      }

  intern_found-Grown :
      (v : InternVisitor) (s : String) (found : Option ℕ)
      → Inv v
      → offset_of v.already_interned s ≡ found
      → let (l, v') = intern_found into_bytes v s found in Grown v v' (λ seg. InternedIn seg l)
  unfolding intern_found
  intern_found-Grown v s (some offset) i e = record {
    inv = i;
    more = [];
    extends = sym (append-nil v.segment);
    good = i.placed s offset e;
  }
  intern_found-Grown v s none i e = intern_new-Grown v s i

  pub same_state : (v : InternVisitor) (G : List ℕ → Type 0) → Inv v → G v.segment → Grown v v G
  same_state v G i g = record { inv = i; more = []; extends = sym (append-nil v.segment); good = g }

  pub intern_lit-Grown :
      (v : InternVisitor) (l : Lit)
      → Inv v
      → RawLit l
      → let (l', v') = intern_lit into_bytes v l in Grown v v' (λ seg. InternedIn seg l')
  unfolding intern_lit intern_string
  intern_lit-Grown v (Lit.string s) i raw =
      intern_found-Grown v s (offset_of v.already_interned s) i refl
  intern_lit-Grown v (Lit.interned s offset) i raw = absurd (ground arith)
  intern_lit-Grown v (Lit.bool b) i raw = same_state v _ i tt
  intern_lit-Grown v (Lit.i32 n) i raw = same_state v _ i tt
  intern_lit-Grown v (Lit.f64 n) i raw = same_state v _ i tt
  intern_lit-Grown v Lit.undefined i raw = same_state v _ i tt
  intern_lit-Grown v Lit.null i raw = same_state v _ i tt
