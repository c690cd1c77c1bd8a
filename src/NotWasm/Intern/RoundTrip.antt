-- ===== src/NotWasm/Intern/RoundTrip.antt =====
-- The strings of a program, as the runtime reads them back.
use jankscripten.Prelude.{
  ℕ, ◌%◌, String, ◌≡◌, refl, inl, inr, true, false, some, List, Option-cases, length, drop,
}
use jankscripten.Runtime.StringPtr.{deref}
use jankscripten.NotWasm.Operators.{Lit}
use jankscripten.NotWasm.Syntax.{Program}
use jankscripten.NotWasm.Intern.{
  InternVisitor, u32, offset_of, intern_new, intern_found, intern_string, intern,
}
use jankscripten.NotWasm.Intern.Layout.{Fits, deref-Stored}
use jankscripten.NotWasm.Intern.Literals.{InProgram, functions_mono, globals_mono}
use jankscripten.NotWasm.Intern.Strings.{RawLit, PlainLit, InternedIn, offset_of-hit}
use jankscripten.NotWasm.Intern.Walks.{intern-InternedIn}

module _ (into_bytes : String → List ℕ) where
  -- no string literal, or an interned one that the runtime reads back, at an aligned offset
  abbrev pub ReadsBack : List ℕ → Lit → Type 0
  ReadsBack segment (Lit.string s) = true ≡ false
  ReadsBack segment (Lit.interned s offset) =
      (deref (drop offset segment) ≡ some (into_bytes s)) × (offset % 4 ≡ 0)
  ReadsBack segment _ = Unit {0}

  InternedIn-ReadsBack :
      (segment : List ℕ)
      → Fits segment
      → (l : Lit) → InternedIn into_bytes segment l
      → ReadsBack segment l
  InternedIn-ReadsBack segment fits (Lit.string s) h = h
  InternedIn-ReadsBack segment fits (Lit.interned s offset) h =
      let stored = h fits in (deref-Stored segment (into_bytes s) offset stored, stored.aligned)
  InternedIn-ReadsBack segment fits (Lit.bool b) h = tt
  InternedIn-ReadsBack segment fits (Lit.i32 n) h = tt
  InternedIn-ReadsBack segment fits (Lit.f64 n) h = tt
  InternedIn-ReadsBack segment fits Lit.undefined h = tt
  InternedIn-ReadsBack segment fits Lit.null h = tt

-- Interning a program whose literals are not interned yet, and that has no string below a dereference, leaves no string
-- literal in it; and if 32 bits address the data, the runtime's StringPtr at the offset of an interned literal reads the bytes of
-- its string, and the offset is a multiple of four.
pub intern-deref :
    (into_bytes : String → List ℕ) (p : Program)
    → InProgram PlainLit RawLit p
    → Fits (intern into_bytes p).0.segment
    → InProgram PlainLit
        (ReadsBack into_bytes (intern into_bytes p).0.segment)
        (intern into_bytes p).0
intern-deref into_bytes p raw fits =
    let p' = (intern into_bytes p).0 in
    let (functions, globals) = intern-InternedIn into_bytes p raw in
    let read = InternedIn-ReadsBack into_bytes p'.segment fits in
    (
      functions_mono PlainLit (InternedIn into_bytes p'.segment) (ReadsBack into_bytes p'.segment)
          read p'.functions functions,
      globals_mono PlainLit (InternedIn into_bytes p'.segment) (ReadsBack into_bytes p'.segment)
          read p'.globals globals,
    )

-- A string that was interned is not stored again: interning it once more gives the same literal and changes nothing.
pub intern_string-again :
    (into_bytes : String → List ℕ) (v : InternVisitor) (s : String)
    → let (l, v') = intern_string into_bytes v s in
      ◌≡◌ {A = Lit × InternVisitor} (intern_string into_bytes v' s) (l, v')
unfolding intern_string intern_found intern_new
intern_string-again into_bytes v s = elim (Option-cases (offset_of v.already_interned s)) [
  | inl e ↦ rw (e, offset_of-hit s s (u32 (length v.segment)) v.already_interned refl)
  | inr (offset, e) ↦ rw (e, e)
]
