-- ===== src/Runtime/ClassList/Tree.antt =====
-- The classes form a tree: a transition adds one property to the end of a class's properties.
use jankscripten.Prelude.{
  ℕ, zero, suc, ◌+◌, ◌<◌, String, ◌≡◌, refl, sym, ap, ap₂, subst, ◌∙◌, ◌≢◌, ◌⊎◌, inl, inr, if_pos,
  if_neg, some, List, [], ◌∷◌, ◌++◌, map, arith, ℕ_discrete, length, get_elem?, set,
}
use jankscripten.Prelude.{length-set, get_elem?-set_self, get_elem?-set_ne}
use jankscripten.Prelude.{some-inj}
use jankscripten.Shared.Ident.{String-discrete}
use jankscripten.Runtime.ClassList.{Class, ClassList, find}

module _ {ℓ} {A : Type ℓ} where
  pub get_elem?-lt : (xs : List A) (i : ℕ) (x : A) → get_elem? xs i ≡ some x → i < length xs
  get_elem?-lt [] i x h = absurd (ground arith)
  get_elem?-lt (y ∷ xs) zero x h = omega arith
  get_elem?-lt (y ∷ xs) (suc i) x h = let l = get_elem?-lt xs i x h in omega arith

  pub get_elem?-append :
      (xs ys : List A) (i : ℕ) → i < length xs → get_elem? (xs ++ ys) i ≡ get_elem? xs i
  get_elem?-append [] ys i l = absurd (omega arith)
  get_elem?-append (x ∷ xs) ys zero l = refl
  get_elem?-append (x ∷ xs) ys (suc i) l = get_elem?-append xs ys i (omega arith)

  pub get_elem?-last : (xs : List A) (y : A) → get_elem? (xs ++ (y ∷ [])) (length xs) ≡ some y
  get_elem?-last [] y = refl
  get_elem?-last (x ∷ xs) y = get_elem?-last xs y

  pub get_elem?-past :
      (xs : List A) (y : A) (i : ℕ) (z : A)
      → get_elem? (xs ++ (y ∷ [])) i ≡ some z
      → i ≢ length xs
      → i < length xs
  get_elem?-past [] y zero z h n = absurd (n refl)
  get_elem?-past [] y (suc i) z h n = absurd (ground arith)
  get_elem?-past (x ∷ xs) y zero z h n = omega arith
  get_elem?-past (x ∷ xs) y (suc i) z h n =
      let l = get_elem?-past xs y i z h (λ e. n (ap suc e)) in omega arith

names-append :
    (xs ys : List (String × ℕ))
    → map (λ (name, i). name) (xs ++ ys) ≡ map (λ (name, i). name) xs ++ map (λ (name, i). name) ys
names-append [] ys = refl
names-append (x ∷ xs) ys = ap (λ r. (let (n, i) = x in n) ∷ r) (names-append xs ys)

length-names : (xs : List (String × ℕ)) → length (map (λ (name, i). name) xs) ≡ length xs
length-names [] = refl
length-names (x ∷ xs) = ap suc (length-names xs)

-- the names with their places, from a first place on
abbrev pub numbered : ℕ → List String → List (String × ℕ)
numbered i [] = []
numbered i (name ∷ rest) = (name, i) ∷ numbered (suc i) rest

pub numbered-append :
    (i : ℕ) (ns : List String) (n : String)
    → numbered i (ns ++ (n ∷ [])) ≡ numbered i ns ++ ((n, i + length ns) ∷ [])
numbered-append i [] n = ap (λ k. (n, k) ∷ []) (omega arith)
numbered-append i (m ∷ ns) n =
    ap (λ r. (m, i) ∷ r)
      (numbered-append (suc i) ns n ∙ ap (λ k. numbered (suc i) ns ++ ((n, k) ∷ [])) (omega arith))

pub find-hit :
    (k m : String) (v : ℕ) (xs : List (String × ℕ)) → k ≡ m → find ((k, v) ∷ xs) m ≡ some v
unfolding find
find-hit k m v xs p = rw (if_pos (String-discrete k m) p)

pub find-miss :
    (k m : String) (v : ℕ) (xs : List (String × ℕ)) → k ≢ m → find ((k, v) ∷ xs) m ≡ find xs m
unfolding find
find-miss k m v xs p = rw (if_neg (String-discrete k m) p)

find-none : (m : String) (j : ℕ) → find [] m ≢ some j
unfolding find
find-none m j h = absurd (ground arith)

pub find-append :
    (xs : List (String × ℕ)) (n m : String) (i j : ℕ)
    → find (xs ++ ((n, i) ∷ [])) m ≡ some j
    → (find xs m ≡ some j) ⊎ ((m ≡ n) × (j ≡ i))
find-append [] n m i j h = elim (String-discrete n m) [
  | yes p ↦ inr (sym p, some-inj (sym h ∙ find-hit n m i [] p))
  | no p ↦ absurd (find-none m j (sym (find-miss n m i [] p) ∙ h))
]
find-append ((k, v) ∷ xs) n m i j h = elim (String-discrete k m) [
  | yes p ↦ inl (find-hit k m v xs p ∙ (sym (find-hit k m v (xs ++ ((n, i) ∷ [])) p) ∙ h))
  | no p ↦ elim (find-append xs n m i j (sym (find-miss k m v (xs ++ ((n, i) ∷ [])) p) ∙ h)) [
    | inl e ↦ inl (find-miss k m v xs p ∙ e)
    | inr e ↦ inr e
  ]
]

-- the class with that tag has the names `ns`
pub record ClassAt (classes : ClassList) (tag : ℕ) (ns : List String) : Type 0 where
  pub class : Class
  pub found : get_elem? classes tag ≡ some class
  pub holds : class.offsets ≡ numbered 0 ns

-- The offsets of a class are its properties' places in the order of insertion, and a transition leads to the
-- class with one more property at the end.
pub record IsNode (classes : ClassList) (c : Class) : Type 0 where
  pub ns : List String
  pub holds : c.offsets ≡ numbered 0 ns
  pub sized : c.size ≡ length ns
  pub leads :
      (name : String) (tag : ℕ)
      → find c.transitions name ≡ some tag
      → ClassAt classes tag (ns ++ (name ∷ []))

abbrev pub IsTree : ClassList → Type 0
IsTree classes = (tag : ℕ) (c : Class) → get_elem? classes tag ≡ some c → IsNode classes c

-- every class keeps its tag and its properties
abbrev pub KeepsClasses : ClassList → ClassList → Type 0
KeepsClasses before later =
    (tag : ℕ) (ns : List String) → ClassAt before tag ns → ClassAt later tag ns

pub IsNode-KeepsClasses :
    (before later : ClassList) (c : Class)
    → KeepsClasses before later
    → IsNode before c
    → IsNode later c
IsNode-KeepsClasses before later c keep node = record {
  ns = node.ns;
  holds = node.holds;
  sized = node.sized;
  leads = λ name tag h. keep tag (node.ns ++ (name ∷ [])) (node.leads name tag h);
}

-- the classes after a new transition of the class `c` with that tag
module _ (classes : ClassList) (tag : ℕ) (c : Class) (name : String)
    (at_tag : get_elem? classes tag ≡ some c) (node : IsNode classes c) where
  unfoldable pub parent : Class
  parent = record c { transitions = c.transitions ++ ((name, length classes) ∷ []) }

  unfoldable pub child : Class
  child = record {
    size = c.size + 1;
    offsets = c.offsets ++ ((name, c.size) ∷ []);
    transitions = [];
  }

  unfoldable pub grown : ClassList
  grown = set classes tag parent ++ (child ∷ [])

  pub child_holds : child.offsets ≡ numbered 0 (node.ns ++ (name ∷ []))
  unfolding child
  child_holds =
      let sized : c.size ≡ 0 + length node.ns = (let e = node.sized in omega arith) in
      ap₂ (λ o k. o ++ ((name, k) ∷ [])) node.holds sized ∙ sym (numbered-append 0 node.ns name)

  pub child_found : get_elem? grown (length classes) ≡ some child
  unfolding grown
  child_found =
      subst (λ n. get_elem? (set classes tag parent ++ (child ∷ [])) n ≡ some child)
        (length-set classes tag parent) (get_elem?-last (set classes tag parent) child)

  pub child_at : ClassAt grown (length classes) (node.ns ++ (name ∷ []))
  child_at = record { class = child; found = child_found; holds = child_holds }

  pub parent_at : get_elem? grown tag ≡ some parent
  unfolding grown
  parent_at =
      let l = get_elem?-lt classes tag c at_tag in
      get_elem?-append (set classes tag parent) (child ∷ []) tag
        (rw (length-set classes tag parent) l)
      ∙ get_elem?-set_self classes tag parent l

  pub other_at :
      (t : ℕ) (d : Class) → tag ≢ t → get_elem? classes t ≡ some d → get_elem? grown t ≡ some d
  unfolding grown
  other_at t d n h =
      get_elem?-append (set classes tag parent) (child ∷ []) t
        (rw (length-set classes tag parent) (get_elem?-lt classes t d h))
      ∙ (get_elem?-set_ne classes parent n ∙ h)

  pub grown-KeepsClasses : KeepsClasses classes grown
  unfolding parent
  grown-KeepsClasses t ns at = elim (ℕ_discrete tag t) [
    | yes p ↦ record {
      class = parent;
      found = subst (λ t. get_elem? grown t ≡ some parent) p parent_at;
      holds =
          ap (λ c. c.offsets) (some-inj (sym at_tag ∙ (ap (λ t. get_elem? classes t) p ∙ at.found)))
          ∙ at.holds;
    }
    | no p ↦ record { class = at.class; found = other_at t at.class p at.found; holds = at.holds }
  ]

  pub old_at :
      (t : ℕ) (d : Class)
      → t ≢ length classes
      → tag ≢ t
      → get_elem? grown t ≡ some d
      → get_elem? classes t ≡ some d
  unfolding grown
  old_at t d n m h =
      let l =
        get_elem?-past (set classes tag parent) child t d h
          (λ e. n (e ∙ length-set classes tag parent)) in
      sym (get_elem?-set_ne classes parent m)
      ∙ (sym (get_elem?-append (set classes tag parent) (child ∷ []) t l) ∙ h)
