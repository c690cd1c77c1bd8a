-- ===== src/NotWasm/FromJanky/Temporaries.antt =====
-- Temporaries: the variables that the translation adds, which carry no type annotation.
use jankscripten.Prelude.{
  ℕ, suc, ◌+◌, ◌≤◌, ◌≡◌, refl, sym, ap, subst, ◌∙◌, Option, none, some, List, [], ◌∷◌, ◌++◌, arith,
  Result, ok, err, panic, ◌>>=◌,
}
use mathlib.Core.List.{append_assoc, append-nil}
use jankscripten.Shared.Ident.{Ident, next_index}
use jankscripten.Rope.{Rope, OutOfFuel, join}
use jankscripten.Rope.Iterate.{to_list, nodes, IsPacked, join-to_list, collect-into_iter}
use jankscripten.NotWasm.Types.{NotWasmType}
use jankscripten.NotWasm.Syntax.{Stmt, Stmts}
use jankscripten.NotWasm.FromJanky.{State, to_stmts, collected}

abbrev pub temporary : Ident → Option NotWasmType → List Ident
temporary x none = x ∷ []
temporary x (some t) = []

-- in the order of the text, nested blocks included
abbrev mutual
  pub temporaries : Stmt → List Ident
  temporaries (Stmt.var x) = temporary x.id x.ty
  temporaries (Stmt.if_ a s t) = temporaries s ++ temporaries t
  temporaries (Stmt.loop s) = temporaries s
  temporaries (Stmt.label l s) = temporaries s
  temporaries (Stmt.block ss) = all_temporaries ss
  temporaries _ = []

  pub all_temporaries : Stmts → List Ident
  all_temporaries Stmts.nil = []
  all_temporaries (Stmts.cons s ss) = temporaries s ++ all_temporaries ss

-- the index that the next temporary gets
abbrev pub index_of : State → ℕ
index_of s = next_index (s.namegen.next_name "anf")

-- anf names with rising indices, from `lo` on and below `hi`
abbrev pub Rising : ℕ → List Ident → ℕ → Type 0
Rising lo [] hi = lo ≤ hi
Rising lo (x ∷ xs) hi = (i : ℕ) × (x ≡ Ident.generated "anf" i) × (lo ≤ i) × Rising (suc i) xs hi

pub Rising-≤ : (lo hi : ℕ) (xs : List Ident) → Rising lo xs hi → lo ≤ hi
Rising-≤ lo hi [] h = h
Rising-≤ lo hi (x ∷ xs) (i, e, le, h) = let l = Rising-≤ (suc i) hi xs h in omega arith

pub Rising-lower : (lo lo' hi : ℕ) (xs : List Ident) → lo' ≤ lo → Rising lo xs hi → Rising lo' xs hi
Rising-lower lo lo' hi [] l h = omega arith
Rising-lower lo lo' hi (x ∷ xs) l (i, e, le, h) = (i, e, omega arith, h)

pub Rising-append :
    (lo mid hi : ℕ) (xs ys : List Ident)
    → Rising lo xs mid
    → Rising mid ys hi
    → Rising lo (xs ++ ys) hi
Rising-append lo mid hi [] ys h k = Rising-lower mid lo hi ys h k
Rising-append lo mid hi (x ∷ xs) ys (i, e, le, h) k =
    (i, e, le, Rising-append (suc i) mid hi xs ys h k)

abbrev pub in_list : List Stmt → List Ident
in_list ss = all_temporaries (to_stmts ss)

pub in_list-append : (ss ts : List Stmt) → in_list (ss ++ ts) ≡ in_list ss ++ in_list ts
in_list-append [] ts = refl
in_list-append (s ∷ ss) ts =
    ap (λ r. temporaries s ++ r) (in_list-append ss ts)
    ∙ sym (append_assoc (temporaries s) (in_list ss) (in_list ts))

-- A rope without a hidden `nil`, whose temporaries are named between the two states.
pub record Named (r : Rope Stmt) (lo hi : ℕ) : Type 0 where
  pub packed : IsPacked r
  pub rising : Rising lo (in_list (to_list r)) hi

pub Named-nil : (lo : ℕ) → Named Rope.nil lo lo
Named-nil lo = record { packed = tt; rising = omega arith }

pub Named-singleton :
    (s : Stmt) (lo hi : ℕ) → Rising lo (temporaries s) hi → Named (Rope.singleton s) lo hi
Named-singleton s lo hi h = record {
  packed = tt;
  rising = subst (λ xs. Rising lo xs hi) (sym (append-nil (temporaries s))) h;
}

pub Named-join :
    (r t : Rope Stmt) (lo mid hi : ℕ) → Named r lo mid → Named t mid hi → Named (join r t) lo hi
Named-join r t lo mid hi n k =
    let (e, packed) = join-to_list r t n.packed k.packed in
    record {
      packed = packed;
      rising =
          subst (λ ss. Rising lo (in_list ss) hi) (sym e)
            (subst (λ xs. Rising lo xs hi) (sym (in_list-append (to_list r) (to_list t)))
              (Rising-append lo mid hi (in_list (to_list r)) (in_list (to_list t)) n.rising
                k.rising));
    }

-- A run that panics, or returns what satisfies `P`; it does not run out of fuel.
abbrev pub Never {ℓ} : {A : Type ℓ} → (A → Type 0) → Result OutOfFuel A → Type 0
Never P panic = Unit {0}
Never P (err e) = ⊥
Never P (ok a) = P a

pub Never->>= {ℓ κ} :
    {A : Type ℓ} {B : Type κ} (P : A → Type 0) (Q : B → Type 0) (m : Result OutOfFuel A)
    (f : A → Result OutOfFuel B)
    → Never P m
    → ((a : A) → P a → Never Q (f a))
    → Never Q (m >>= f)
Never->>= P Q panic f h k = tt
Never->>= P Q (err e) f h k = absurd h
Never->>= P Q (ok a) f h k = k a h

pub collected-eq : (r : Rope Stmt) → IsPacked r → collected r ≡ ok (to_list r)
unfolding collected
collected-eq r p = collect-into_iter r (nodes r + 1) p (omega arith)
