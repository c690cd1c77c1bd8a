-- ===== src/Runtime/Gc/Sweep.antt =====
-- The loop of the sweep.
use jankscripten.Prelude.{
  ℕ, ◌+◌, ◌-◌, ◌≡◌, refl, sym, ap, ap₂, subst, ◌∙◌, inl, inr, true, false, Option, none, some, List,
  [], ◌∷◌, ◌++◌, arith, if◌then◌else◌, Bool-cases, set, ok,
}
use mathlib.Core.List.{Memᴰ}
use mathlib.Core.List.Memᴰ
use jankscripten.Runtime.Gc.{Block, ClassKeys, Heap, Sizes, get_data_size}
use jankscripten.Runtime.Gc.Collect.{block_at, tag_size, sweep_item, sweep}
use jankscripten.Runtime.Gc.Reach.{block_at-set_self, block_at-set_ne, is_marked}

abbrev pub NoDup : List ℕ → Type 0
NoDup [] = Unit {0}
NoDup (p ∷ ps) = (¬ Memᴰ p ps) × NoDup ps

-- what the sweep makes of an item's block
abbrev pub swept_block : Option Block → Option Block
swept_block none = none
swept_block (some b) = if b.marked then some (record b { marked = false }) else none

-- the items that stay in the list
abbrev pub survivors : List (Option Block) → List ℕ → List ℕ
survivors m [] = []
survivors m (p ∷ ps) = (if is_marked (block_at m p) then p ∷ [] else []) ++ survivors m ps

module _ (z : Sizes) (cs : List ClassKeys) where
  abbrev pub or_zero : Option ℕ → ℕ
  or_zero none = 0
  or_zero (some n) = n

  abbrev pub size_of_block : Option Block → ℕ
  size_of_block none = 0
  size_of_block (some b) = tag_size z + or_zero (get_data_size z cs b.content)

  -- the bytes that the blocks of a list take, tags included
  abbrev pub total_size : List (Option Block) → List ℕ → ℕ
  total_size m [] = 0
  total_size m (p ∷ ps) = size_of_block (block_at m p) + total_size m ps

  total_size-append :
      (m : List (Option Block)) (ps qs : List ℕ)
      → total_size m (ps ++ qs) ≡ total_size m ps + total_size m qs
  total_size-append m [] qs = omega arith
  total_size-append m (p ∷ ps) qs = let e = total_size-append m ps qs in omega arith

-- A write to a block that a list does not have changes neither what survives of it nor its size.
module _ (m : List (Option Block)) (p : ℕ) (x : Option Block) where
  apart : (q : ℕ) (ps : List ℕ) → ¬ Memᴰ p (q ∷ ps) → block_at (set m p x) q ≡ block_at m q
  apart q ps n = block_at-set_ne m x (λ e. n (Memᴰ.head e))

  survivors-set : (ps : List ℕ) → ¬ Memᴰ p ps → survivors (set m p x) ps ≡ survivors m ps
  survivors-set [] n = refl
  survivors-set (q ∷ ps) n =
      ap₂ (λ b rest. (if is_marked b then q ∷ [] else []) ++ rest) (apart q ps n)
        (survivors-set ps (λ y. n (Memᴰ.tail y)))

  total_size-set :
      (z : Sizes) (cs : List ClassKeys) (ps : List ℕ)
      → ¬ Memᴰ p ps
      → total_size z cs (set m p x) ps ≡ total_size z cs m ps
  total_size-set z cs [] n = refl
  total_size-set z cs (q ∷ ps) n =
      ap₂ (λ b rest. size_of_block z cs b + rest) (apart q ps n)
        (total_size-set z cs ps (λ y. n (Memᴰ.tail y)))

pub survivors-sub :
    (m : List (Option Block)) (ps : List ℕ) (q : ℕ)
    → Memᴰ q (survivors m ps)
    → Memᴰ q ps × (is_marked (block_at m q) ≡ true)
survivors-sub m [] q x = absurd (Memᴰ.not-nil x)
survivors-sub m (p ∷ ps) q x = elim (Bool-cases (is_marked (block_at m p))) [
  | inl on ↦
      let x' = subst (λ b. Memᴰ q ((if b then p ∷ [] else []) ++ survivors m ps)) on x in
      elim (Memᴰ.cases_cons x') [
        | inl e ↦ (Memᴰ.head e, subst (λ p. is_marked (block_at m p) ≡ true) (sym e) on)
        | inr y ↦ let (inside, marked) = survivors-sub m ps q y in (Memᴰ.tail inside, marked)
      ]
  | inr off ↦
      let x' = subst (λ b. Memᴰ q ((if b then p ∷ [] else []) ++ survivors m ps)) off x in
      let (inside, marked) = survivors-sub m ps q x' in (Memᴰ.tail inside, marked)
]

pub survivors-all :
    (m : List (Option Block)) (ps : List ℕ) (q : ℕ)
    → Memᴰ q ps
    → is_marked (block_at m q) ≡ true
    → Memᴰ q (survivors m ps)
survivors-all m [] q x on = absurd (Memᴰ.not-nil x)
survivors-all m (p ∷ ps) q x on = elim (Memᴰ.cases_cons x) [
  | inl e ↦
      let on' : is_marked (block_at m p) ≡ true =
        subst (λ q. is_marked (block_at m q) ≡ true) e on in
      subst (λ b. Memᴰ q ((if b then p ∷ [] else []) ++ survivors m ps)) (sym on') (Memᴰ.head e)
  | inr y ↦
      Memᴰ.append_right (if is_marked (block_at m p) then p ∷ [] else [])
        (survivors-all m ps q y on)
]

pub survivors-NoDup : (m : List (Option Block)) (ps : List ℕ) → NoDup ps → NoDup (survivors m ps)
survivors-NoDup m [] d = tt
survivors-NoDup m (p ∷ ps) (n, d) = elim (Bool-cases (is_marked (block_at m p))) [
  | inl on ↦
      subst (λ b. NoDup ((if b then p ∷ [] else []) ++ survivors m ps)) (sym on)
        (λ x. n (survivors-sub m ps p x).0, survivors-NoDup m ps d)
  | inr off ↦
      subst (λ b. NoDup ((if b then p ∷ [] else []) ++ survivors m ps)) (sym off)
        (survivors-NoDup m ps d)
]

-- The sweep of a list of distinct blocks, from a heap with that memory and used memory.
pub record Swept (z : Sizes) (h : Heap) (m : List (Option Block)) (used : ℕ) (ps : List ℕ)
    : Type 0 where
  pub m' : List (Option Block)
  pub used' : ℕ
  pub returned :
      sweep z (record h { memory = m; used_mem = used }) ps
      ≡ ok (survivors m ps, record h { memory = m'; used_mem = used' })
  pub inside : (q : ℕ) → Memᴰ q ps → block_at m' q ≡ swept_block (block_at m q)
  pub outside : (q : ℕ) → ¬ Memᴰ q ps → block_at m' q ≡ block_at m q
  pub counted :
      (k : ℕ)
      → total_size z h.classes m ps + k ≡ used
      → total_size z h.classes m (survivors m ps) + k ≡ used'

module _ (z : Sizes) (h : Heap) where
  -- A turn of the loop that leaves `x` for the block, and `kept` and `used1`, before the turns for the rest.
  pub turn :
      (m : List (Option Block)) (used used1 p : ℕ) (ps kept : List ℕ) (b : Block) (x : Option Block)
      → block_at m p ≡ some b
      → ¬ Memᴰ p ps
      → swept_block (some b) ≡ x
      → (if b.marked then p ∷ [] else []) ≡ kept
      → (sweep_item z (record h { memory = m; used_mem = used }) p b
          ≡ ok (kept, record h { memory = set m p x; used_mem = used1 }))
      → ((k : ℕ)
          → size_of_block z h.classes (some b) + k ≡ used
          → total_size z h.classes m kept + k ≡ used1)
      → Swept z h (set m p x) used1 ps
      → Swept z h m used (p ∷ ps)
  unfolding sweep
  turn m used used1 p ps kept b x at n gives keeps e counts rest =
      let same_rest = survivors-set m p x ps n in
      let all : survivors m (p ∷ ps) ≡ kept ++ survivors m ps =
        ap (λ c. (if is_marked c then p ∷ [] else []) ++ survivors m ps) at
        ∙ ap (λ c. c ++ survivors m ps) keeps in
      record {
        m' = rest.m';
        used' = rest.used';
        returned = rw (at, e, rest.returned, same_rest, keeps);
        inside = λ q y. elim (Memᴰ.cases_cons y) [
          | inl same ↦
              subst (λ q. block_at rest.m' q ≡ swept_block (block_at m q)) (sym same)
                (rest.outside p n
                  ∙ (block_at-set_self m p b x at ∙ (sym gives ∙ sym (ap swept_block at))))
          | inr y' ↦
              rest.inside q y'
              ∙ ap swept_block
                  (block_at-set_ne m x (λ same. n (subst (λ q. Memᴰ q ps) (sym same) y')))
        ];
        outside = λ q n'.
            rest.outside q (λ y. n' (Memᴰ.tail y))
            ∙ block_at-set_ne m x (λ same. n' (Memᴰ.head (sym same)));
        counted = λ k sum.
            let now : size_of_block z h.classes (some b) + total_size z h.classes m ps + k ≡ used =
              subst (λ c. size_of_block z h.classes c + total_size z h.classes m ps + k ≡ used) at
                sum in
            let first = counts (total_size z h.classes m ps + k) (omega arith) in
            let tail = total_size-set m p x z h.classes ps n in
            let after = rest.counted (total_size z h.classes m kept + k) (omega arith) in
            let left : total_size z h.classes (set m p x) (survivors (set m p x) ps)
                ≡ total_size z h.classes m (survivors m ps) =
              ap (total_size z h.classes (set m p x)) same_rest
              ∙ total_size-set m p x z h.classes (survivors m ps)
                  (λ y. n (survivors-sub m ps p y).0) in
            let whole =
              ap (total_size z h.classes m) all
              ∙ total_size-append z h.classes m kept (survivors m ps) in
            omega arith;
      }

  pub sweep-Swept :
      (ps : List ℕ) (m : List (Option Block)) (used : ℕ)
      → NoDup ps
      → ((p : ℕ)
          → Memᴰ p ps
          → (b : Block) × (n : ℕ) × (block_at m p ≡ some b)
            × (get_data_size z h.classes b.content ≡ some n))
      → Swept z h m used ps
  unfolding sweep sweep_item
  sweep-Swept [] m used d blocks = record {
    m' = m;
    used' = used;
    returned = refl;
    inside = λ q x. absurd (Memᴰ.not-nil x);
    outside = λ q n. refl;
    counted = λ k sum. sum;
  }
  sweep-Swept (p ∷ ps) m used (n, d) blocks =
      let (b, size, at, sized) = blocks p (Memᴰ.head refl) in
      let others : (x : Option Block) (q : ℕ)
          → Memᴰ q ps
          → (b : Block) × (n : ℕ) × (block_at (set m p x) q ≡ some b)
            × (get_data_size z h.classes b.content ≡ some n) =
        λ x q y.
          let (c, k, at_c, sized_c) = blocks q (Memᴰ.tail y) in
          (
            c,
            k,
            block_at-set_ne m x (λ same. n (subst (λ q. Memᴰ q ps) (sym same) y)) ∙ at_c,
            sized_c,
          ) in
      elim (Bool-cases b.marked) [
        | inl on ↦
            let x = some (record b { marked = false }) in
            turn m used used p ps (p ∷ []) b x at n (rw on refl) (rw on refl) (rw on refl)
              (λ k sum.
                let e : total_size z h.classes m (p ∷ []) ≡ size_of_block z h.classes (some b) + 0 =
                  ap (λ c. size_of_block z h.classes c + 0) at in
                omega arith)
              (sweep-Swept ps (set m p x) used d (others x))
        | inr off ↦
            let used1 = used - (tag_size z + size) in
            turn m used used1 p ps [] b none at n (rw off refl) (rw off refl) (rw (off, sized) refl)
              (λ k sum.
                let e : size_of_block z h.classes (some b) ≡ tag_size z + size =
                  ap (λ s. tag_size z + or_zero z h.classes s) sized in
                omega arith)
              (sweep-Swept ps (set m p none) used1 d (others none))
      ]
