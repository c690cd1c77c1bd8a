-- ===== src/Runtime/Gc/Whole.antt =====
-- A whole collection.
use jankscripten.Prelude.{
  ℕ, ◌+◌, ◌≤◌, ◌<◌, ◌≡◌, refl, sym, ap, ap₂, subst, ◌∙◌, ◌↔◌, ◌⊎◌, inl, inr, true, false, Option,
  none, some, List, [], ◌∷◌, ◌++◌, arith, ℕ_discrete, if◌then◌else◌, Bool-cases,
}
use mathlib.Core.List.{Memᴰ}
use mathlib.Core.List.Memᴰ
use jankscripten.Prelude.{some-inj}
use jankscripten.Runtime.F64Allocator.{len}
use jankscripten.Runtime.Gc.{Block, ClassKeys, Heap, Sizes, get_data_size}
use jankscripten.Runtime.Gc.Moves.{IsSized}
use jankscripten.Runtime.Gc.Collect.{block_at, tag_size, stack_roots}
use jankscripten.Runtime.Gc.Pointers.{PointsTo}
use jankscripten.Runtime.Gc.Reach.{
  is_marked, unmarked, numbers, IsBlock, look_block, look_at, IsWellFormed, Reach,
}
use jankscripten.Runtime.Gc.Sweep.{
  NoDup, swept_block, survivors, or_zero, size_of_block, total_size,
}

-- the heap's invariant, with what a collection relies on
pub record IsHeap (z : Sizes) (h : Heap) : Type 0 where
  pub formed : IsWellFormed z h.classes h.memory
  pub rooted : (p : ℕ) → Memᴰ p (stack_roots h.shadow_stack) → IsBlock h.memory p
  pub spaces : IsSized h.f64_allocator
  pub fits : unmarked numbers h.memory < len
  pub distinct : NoDup h.alloc_list
  pub listed :
      (p : ℕ)
      → Memᴰ p h.alloc_list
      → (b : Block) × (block_at h.memory p ≡ some b) × (b.marked ≡ false)
  pub unlisted :
      (p : ℕ) (b : Block)
      → block_at h.memory p ≡ some b
      → ¬ Memᴰ p h.alloc_list
      → (q : ℕ) → ¬ PointsTo h.classes b.content q
  pub accounted : h.used_mem ≡ total_size z h.classes h.memory h.alloc_list

-- what a collection makes of a heap
pub record Collected (z : Sizes) (h h' : Heap) : Type 0 where
  pub alive :
      (p : ℕ)
      → Memᴰ p h'.alloc_list
        ↔ (Memᴰ p h.alloc_list × Reach h.classes h.memory (stack_roots h.shadow_stack) p)
  pub freed :
      (p : ℕ)
      → Memᴰ p h.alloc_list
      → ¬ Reach h.classes h.memory (stack_roots h.shadow_stack) p
      → block_at h'.memory p ≡ none
  pub kept :
      (p : ℕ)
      → Memᴰ p h'.alloc_list
      → (b b' : Block) × (block_at h.memory p ≡ some b)
        × (block_at h'.memory p ≡ some b')
        × (b'.marked ≡ false)
        × ((q : ℕ) → PointsTo h.classes b'.content q ↔ PointsTo h.classes b.content q)
        × (get_data_size z h.classes b'.content ≡ get_data_size z h.classes b.content)
  pub formed : IsWellFormed z h'.classes h'.memory
  pub accounted : h'.used_mem ≡ total_size z h'.classes h'.memory h'.alloc_list
  pub distinct : NoDup h'.alloc_list
  pub less : h'.used_mem ≤ h.used_mem

pub mem_cases : (q : ℕ) (ps : List ℕ) → Memᴰ q ps ⊎ (¬ Memᴰ q ps)
mem_cases q [] = inr (λ x. Memᴰ.not-nil x)
mem_cases q (p ∷ ps) = elim (ℕ_discrete q p) [
  | yes e ↦ inl (Memᴰ.head e)
  | no n ↦ elim (mem_cases q ps) [
    | inl x ↦ inl (Memᴰ.tail x)
    | inr n' ↦ inr (λ x. elim (Memᴰ.cases_cons x) [ inl e ↦ n e | inr y ↦ n' y ])
  ]
]

module _ (z : Sizes) (cs : List ClassKeys) where
  abbrev size_of_look : Option (Option (List ℕ) × Option ℕ) → ℕ
  size_of_look none = 0
  size_of_look (some (ps, n)) = tag_size z + or_zero z cs n

  size_of_block-look : (x : Option Block) → size_of_block z cs x ≡ size_of_look (look_block z cs x)
  size_of_block-look none = refl
  size_of_block-look (some b) = refl

  pub total_size-same :
      (m m' : List (Option Block)) (ps : List ℕ)
      → ((p : ℕ) → Memᴰ p ps → look_at z cs m' p ≡ look_at z cs m p)
      → total_size z cs m' ps ≡ total_size z cs m ps
  total_size-same m m' [] same = refl
  total_size-same m m' (p ∷ ps) same =
      ap₂ (λ a b. a + b)
        (size_of_block-look (block_at m' p)
          ∙ (ap size_of_look (same p (Memᴰ.head refl)) ∙ sym (size_of_block-look (block_at m p))))
        (total_size-same m m' ps (λ q x. same q (Memᴰ.tail x)))

  pub total_size-survivors :
      (m : List (Option Block)) (ps : List ℕ)
      → total_size z cs m (survivors m ps) ≤ total_size z cs m ps
  total_size-survivors m [] = omega arith
  total_size-survivors m (p ∷ ps) =
      let rest = total_size-survivors m ps in
      elim (Bool-cases (is_marked (block_at m p))) [
        | inl on ↦
            subst
              (λ b.
                total_size z cs m ((if b then p ∷ [] else []) ++ survivors m ps)
                ≤ total_size z cs m (p ∷ ps))
              (sym on) (omega arith)
        | inr off ↦
            subst
              (λ b.
                total_size z cs m ((if b then p ∷ [] else []) ++ survivors m ps)
                ≤ total_size z cs m (p ∷ ps))
              (sym off) (omega arith)
      ]

pub swept_block-marked :
    (x : Option Block)
    → is_marked x ≡ true
    → (b : Block) × (x ≡ some b) × (swept_block x ≡ some (record b { marked = false }))
swept_block-marked none on = absurd (ground arith)
swept_block-marked (some b) on = (b, refl, rw on refl)

pub swept_block-unmarked : (x : Option Block) → is_marked x ≡ false → swept_block x ≡ none
swept_block-unmarked none off = refl
swept_block-unmarked (some b) off = rw off refl

pub swept_block-some :
    (x : Option Block) (b : Block)
    → swept_block x ≡ some b
    → (b1 : Block) × (x ≡ some b1) × (b1.marked ≡ true) × (b1.content ≡ b.content)
swept_block-some none b e = absurd (ground arith)
swept_block-some (some b1) b e = elim (Bool-cases b1.marked) [
  | inl on ↦
      let e' : some (record b1 { marked = false }) ≡ some b =
        subst (λ m. (if m then some (record b1 { marked = false }) else none) ≡ some b) on e in
      (b1, refl, on, ap (λ (b : Block). b.content) (some-inj e'))
  | inr off ↦
      let e' : none ≡ some b =
        subst (λ m. (if m then some (record b1 { marked = false }) else none) ≡ some b) off e in
      absurd (ground arith)
]
