-- ===== src/Runtime/ClassList/Transition.antt =====
-- A transition keeps the tree of classes and leads to the class with one more property.
use jankscripten.Prelude.{
  ℕ, zero, suc, ◌%◌, ◌^◌, ◌<◌, String, ◌≡◌, refl, sym, ap, subst, ◌∙◌, inl, inr, Option, none, some,
  List, [], ◌∷◌, ◌++◌, map, arith, ℕ_discrete, Option-cases, length, get_elem?, set, length-append,
}
use jankscripten.Prelude.{some-inj, length-set}
use jankscripten.Shared.Ident.{String-discrete}
use jankscripten.Runtime.ClassList.{
  Class, ClassList, find, follow, transition_from, lookup_transition, branch, new_class_type,
  transition, new_list, empty_class,
}
use jankscripten.Runtime.ClassList.Tree.{
  numbered, find-hit, find-miss, find-append, ClassAt, IsNode, IsTree, KeepsClasses,
  IsNode-KeepsClasses, parent, child, grown, child_holds, child_at, child_found, old_at, parent_at,
  grown-KeepsClasses,
}

names-numbered : (i : ℕ) (ns : List String) → map (λ (n, i). n) (numbered i ns) ≡ ns
names-numbered i [] = refl
names-numbered i (n ∷ ns) = ap (λ r. n ∷ r) (names-numbered (suc i) ns)

numbered-injective : (ns ms : List String) → numbered 0 ns ≡ numbered 0 ms → ns ≡ ms
numbered-injective ns ms e =
    sym (names-numbered 0 ns) ∙ (ap (λ o. map (λ (n, i). n) o) e ∙ names-numbered 0 ms)

module _ (classes : ClassList) (tree : IsTree classes) (tag : ℕ) (c : Class) (name : String)
    (at_tag : get_elem? classes tag ≡ some c) where
  child-IsNode :
      (later : ClassList) → IsNode later (child classes tag c name at_tag (tree tag c at_tag))
  unfolding child find
  child-IsNode later =
      let node = tree tag c at_tag in
      record {
        ns = node.ns ++ (name ∷ []);
        holds = child_holds classes tag c name at_tag node;
        sized = (let e = node.sized in omega (arith, length-append node.ns (name ∷ [])));
        leads = λ n t h. absurd (ground arith);
      }

  parent-IsNode :
      IsNode
        (grown classes tag c name at_tag (tree tag c at_tag))
        (parent classes tag c name at_tag (tree tag c at_tag))
  unfolding parent
  parent-IsNode =
      let node = tree tag c at_tag in
      let keep = grown-KeepsClasses classes tag c name at_tag node in
      record {
        ns = node.ns;
        holds = node.holds;
        sized = node.sized;
        leads = λ n t h. elim (find-append c.transitions name n (length classes) t h) [
          | inl e ↦ keep t (node.ns ++ (n ∷ [])) (node.leads n t e)
          | inr (e, e') ↦
              subst (λ n. ClassAt (grown classes tag c name at_tag node) t (node.ns ++ (n ∷ [])))
                (sym e)
                (subst
                  (λ t. ClassAt (grown classes tag c name at_tag node) t (node.ns ++ (name ∷ [])))
                  (sym e') (child_at classes tag c name at_tag node))
        ];
      }

  grown-IsTree : IsTree (grown classes tag c name at_tag (tree tag c at_tag))
  grown-IsTree t d h =
      let node = tree tag c at_tag in
      let later = grown classes tag c name at_tag node in
      elim (ℕ_discrete t (length classes)) [
        | yes p ↦
            subst (λ d. IsNode later d)
              (some-inj (
                sym (child_found classes tag c name at_tag node)
                ∙ (ap (λ t. get_elem? later t) (sym p) ∙ h)))
              (child-IsNode later)
        | no p ↦ elim (ℕ_discrete tag t) [
          | yes q ↦
              subst (λ d. IsNode later d)
                (some-inj (
                  sym (parent_at classes tag c name at_tag node)
                  ∙ (ap (λ t. get_elem? later t) q ∙ h)))
                parent-IsNode
          | no q ↦
              IsNode-KeepsClasses classes later d
                (grown-KeepsClasses classes tag c name at_tag node)
                (tree t d (old_at classes tag c name at_tag node t d p q h))
        ]
      ]

pub record Grows (before later : ClassList) (tag later_tag : ℕ) (name : String) : Type 0 where
  pub tree : IsTree later
  pub keeps : KeepsClasses before later
  pub adds :
      (ns : List String) → ClassAt before tag ns → ClassAt later later_tag (ns ++ (name ∷ []))

pub names_at :
    (classes : ClassList) (tag : ℕ) (c : Class) (ns : List String) (node : IsNode classes c)
    → get_elem? classes tag ≡ some c
    → ClassAt classes tag ns
    → node.ns ≡ ns
names_at classes tag c ns node h at =
    numbered-injective node.ns ns
      (sym node.holds ∙ (ap (λ c. c.offsets) (some-inj (sym h ∙ at.found)) ∙ at.holds))

pub get_elem?-inside {ℓ} :
    {A : Type ℓ} (xs : List A) (i : ℕ) → i < length xs → (x : A) × (get_elem? xs i ≡ some x)
get_elem?-inside [] i l = absurd (omega arith)
get_elem?-inside (x ∷ xs) zero l = (x, refl)
get_elem?-inside (x ∷ xs) (suc i) l = get_elem?-inside xs i (omega arith)

transition-new :
    (classes : ClassList) (tag : ℕ) (c : Class) (name : String)
    (at_tag : get_elem? classes tag ≡ some c) (node : IsNode classes c)
    → length classes < 2 ^ 16
    → find c.transitions name ≡ none
    → transition classes tag name ≡ some (grown classes tag c name at_tag node, length classes)
unfolding transition transition_from lookup_transition follow branch new_class_type grown parent
    child
transition-new classes tag c name at_tag node small e =
    let wraps : length classes % 2 ^ 16 ≡ length classes = omega arith in
    let par : Class = record c { transitions = c.transitions ++ ((name, length classes) ∷ []) } in
    let same : length (set classes tag par) % 2 ^ 16 ≡ length classes =
      ap (λ n. n % 2 ^ 16) (length-set classes tag par) ∙ wraps in
    rw (at_tag, e, wraps, same)

transition-old :
    (classes : ClassList) (tag : ℕ) (c : Class) (name : String) (later_tag : ℕ)
    → get_elem? classes tag ≡ some c
    → find c.transitions name ≡ some later_tag
    → transition classes tag name ≡ some (classes, later_tag)
unfolding transition transition_from lookup_transition follow
transition-old classes tag c name later_tag at_tag e = rw (at_tag, e)

-- In a tree of fewer than 2^16 classes, a transition succeeds at every class, keeps the tree, the tags and the
-- properties of the classes, and leads to the class whose properties are those of the old one and then the
-- new one.
pub transition-Grows :
    (classes : ClassList) (tag : ℕ) (name : String)
    → IsTree classes
    → length classes < 2 ^ 16
    → tag < length classes
    → (later : ClassList) × (later_tag : ℕ) × (transition classes tag name
        ≡ some (later, later_tag))
      × Grows classes later tag later_tag name
transition-Grows classes tag name tree small inside =
    let (c, at_tag) = get_elem?-inside classes tag inside in
    let node = tree tag c at_tag in
    elim (Option-cases (find c.transitions name)) [
      | inl e ↦ (
        grown classes tag c name at_tag node,
        length classes,
        transition-new classes tag c name at_tag node small e,
        record {
          tree = grown-IsTree classes tree tag c name at_tag;
          keeps = grown-KeepsClasses classes tag c name at_tag node;
          adds = λ ns at.
              subst
                (λ ns.
                  ClassAt (grown classes tag c name at_tag node) (length classes)
                    (ns ++ (name ∷ [])))
                (names_at classes tag c ns node at_tag at)
                (child_at classes tag c name at_tag node);
        },
      )
      | inr (later_tag, e) ↦ (
        classes,
        later_tag,
        transition-old classes tag c name later_tag at_tag e,
        record {
          tree = tree;
          keeps = λ t ns at. at;
          adds = λ ns at.
              subst (λ ns. ClassAt classes later_tag (ns ++ (name ∷ [])))
                (names_at classes tag c ns node at_tag at) (node.leads name later_tag e);
        },
      )
    ]

none-some : {A : Type 0} {a : A} → ◌≡◌ {A = Option A} none (some a) → ⊥
none-some h = absurd (ground arith)

pub find-added :
    (xs : List (String × ℕ)) (n : String) (i : ℕ)
    → find xs n ≡ none
    → find (xs ++ ((n, i) ∷ [])) n ≡ some i
find-added [] n i h = find-hit n n i [] refl
find-added ((k, v) ∷ xs) n i h = elim (String-discrete k n) [
  | yes p ↦ absurd (none-some (sym h ∙ find-hit k n v xs p))
  | no p ↦
      find-miss k n v (xs ++ ((n, i) ∷ [])) p ∙ find-added xs n i (sym (find-miss k n v xs p) ∙ h)
]

-- A second transition on the same property from the same class leads to the same class and adds none.
pub transition-again :
    (classes : ClassList) (tag : ℕ) (name : String) (later : ClassList) (later_tag : ℕ)
    → IsTree classes
    → length classes < 2 ^ 16
    → tag < length classes
    → transition classes tag name ≡ some (later, later_tag)
    → transition later tag name ≡ some (later, later_tag)
transition-again classes tag name later later_tag tree small inside h =
    let (c, at_tag) = get_elem?-inside classes tag inside in
    let node = tree tag c at_tag in
    elim (Option-cases (find c.transitions name)) [
      | inl e ↦
          let grew = some-inj (sym (transition-new classes tag c name at_tag node small e) ∙ h) in
          let again =
            transition-old (grown classes tag c name at_tag node) tag
              (parent classes tag c name at_tag node) name (length classes)
              (parent_at classes tag c name at_tag node)
              (unfold parent in find-added c.transitions name (length classes) e) in
          subst (λ (l, t). transition l tag name ≡ some (l, t)) grew again
      | inr (old_tag, e) ↦
          let kept = some-inj (sym (transition-old classes tag c name old_tag at_tag e) ∙ h) in
          subst (λ (l, t). transition l tag name ≡ some (l, t)) kept
            (transition-old classes tag c name old_tag at_tag e)
    ]

-- The first class list is a tree of one class.
pub new_list-IsTree : IsTree new_list
unfolding new_list find
new_list-IsTree zero c h =
    let e : empty_class ≡ c = some-inj h in
    subst (λ c. IsNode new_list c) e
      (record { ns = []; holds = refl; sized = refl; leads = λ n t h. absurd (ground arith) })
new_list-IsTree (suc tag) c h = absurd (ground arith)
