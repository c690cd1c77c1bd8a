-- ===== src/Runtime/Gc/Examples.antt =====
-- A heap with a block that holds a number and points to itself, a block that nothing reaches, and a static string.
use jankscripten.Prelude.{
  ℕ, zero, suc, ◌+◌, ◌<◌, ◌≡◌, refl, sym, ap, subst, ◌↔◌, ◌⊎◌, inl, inr, true, false, Option, none,
  some, List, [], ◌∷◌, arith, ok, panic, ◌>>=◌, unwrap,
}
use mathlib.Core.List.{Memᴰ}
use mathlib.Core.List.Memᴰ
use jankscripten.Prelude.{some-inj, length-replicate}
use jankscripten.Runtime.Object.{AnyEnum}
use jankscripten.Runtime.F64Allocator.{
  F64Allocator, len, new_allocator, alloc, write, semispace_swap,
}
use jankscripten.Runtime.Gc.{
  Content, Block, Heap, Sizes, get_data_size, get_gc_ptrs, insert_ptr, iter_to_ptrs, alloc_f64,
  move_any, move_each, relocate,
}
use jankscripten.Runtime.Gc.Relocate.{ContentInSpace}
use jankscripten.Runtime.Gc.Collect.{
  block_at, stack_roots, frame_roots, mark_block, mark_root, mark_roots, mark_rounds, mark_phase,
  sweep_item, sweep, sweep_phase, gc,
}
use jankscripten.Runtime.Gc.Allocate.{
  Request, requested_size, written, alloc_raw, alloc_block, alloc_or_gc,
}
use jankscripten.Runtime.Gc.Pointers.{PointsTo, get_gc_ptrs-PointsTo}
use jankscripten.Runtime.Gc.Reach.{Traced, Traced-Linked, is_marked, IsBlock, Reach}
use jankscripten.Runtime.Gc.Phase.{mark_phase-reachable}
use jankscripten.Runtime.Gc.Whole.{IsHeap, Collected}
use jankscripten.Runtime.Gc.Safety.{IsHeap-IsReady}
use jankscripten.Runtime.Gc.Correct.{gc-Collected}
use jankscripten.Runtime.Gc.Accounts.{Allocated, alloc_or_gc-bounded}

abbrev wasm32 : Sizes
wasm32 = record {
  alignment = 4;
  tag = 4;
  any_enum = 8;
  option_any_enum = 8;
  object_ptr = 4;
  hash_map = 16;
  vec = 12;
  any_value = 8;
  i32 = 4;
  f64 = 8;
  any_ptr = 4;
}

abbrev blocks : List (Option Block)
blocks =
    some (record { marked = false; content = Content.array (AnyEnum.f64 3 ∷ AnyEnum.ptr 0 ∷ []) })
    ∷ some (record { marked = false; content = Content.ptr 0 })
    ∷ some (record { marked = true; content = Content.string (97 ∷ []) })
    ∷ none
    ∷ []

sample : Heap
unfolding new_allocator
sample = record {
  f64_allocator = new_allocator;
  size = 24;
  used_mem = 24;
  alloc_list = 1 ∷ 0 ∷ [];
  classes = [];
  shadow_stack = (some 0 ∷ none ∷ []) ∷ [];
  memory = blocks;
}

ptrs_of : (b c : Block) → some c ≡ some b → get_gc_ptrs [] b.content ≡ get_gc_ptrs [] c.content
ptrs_of b c at = ap (λ (b : Block). get_gc_ptrs [] b.content) (sym (some-inj at))

sizes_of :
    (b c : Block)
    → some c ≡ some b
    → get_data_size wasm32 [] b.content ≡ get_data_size wasm32 [] c.content
sizes_of b c at = ap (λ (b : Block). get_data_size wasm32 [] b.content) (sym (some-inj at))

points_to_0 : (q : ℕ) → Memᴰ q (0 ∷ []) → IsBlock blocks q
points_to_0 q x = subst (IsBlock blocks) (sym (Memᴰ.eq_of_singleton x)) (_, refl)

blocks-Traced : (p : ℕ) (b : Block) → block_at blocks p ≡ some b → Traced wasm32 [] blocks b
unfolding get_gc_ptrs insert_ptr iter_to_ptrs
blocks-Traced zero b at = (0 ∷ [], ptrs_of b _ at, points_to_0)
blocks-Traced (suc zero) b at = (0 ∷ [], ptrs_of b _ at, points_to_0)
blocks-Traced (suc (suc zero)) b at = ([], ptrs_of b _ at, λ q x. absurd (Memᴰ.not-nil x))
blocks-Traced (suc (suc (suc zero))) b at = absurd (ground arith)
blocks-Traced (suc (suc (suc (suc p)))) b at = absurd (ground arith)

blocks-sizes :
    (p : ℕ) (b : Block)
    → block_at blocks p ≡ some b
    → (n : ℕ) × (get_data_size wasm32 [] b.content ≡ some n)
unfolding get_data_size
blocks-sizes zero b at = (12, sizes_of b _ at)
blocks-sizes (suc zero) b at = (4, sizes_of b _ at)
blocks-sizes (suc (suc zero)) b at = (5, sizes_of b _ at)
blocks-sizes (suc (suc (suc zero))) b at = absurd (ground arith)
blocks-sizes (suc (suc (suc (suc p)))) b at = absurd (ground arith)

blocks-in_space : (p : ℕ) (b : Block) → block_at blocks p ≡ some b → ContentInSpace b.content
blocks-in_space zero b at =
    subst (λ (b : Block). ContentInSpace b.content) (some-inj at) (omega arith, (tt, tt))
blocks-in_space (suc zero) b at = subst (λ (b : Block). ContentInSpace b.content) (some-inj at) tt
blocks-in_space (suc (suc zero)) b at =
    subst (λ (b : Block). ContentInSpace b.content) (some-inj at) tt
blocks-in_space (suc (suc (suc zero))) b at = absurd (ground arith)
blocks-in_space (suc (suc (suc (suc p)))) b at = absurd (ground arith)

blocks-unlisted :
    (p : ℕ) (b : Block)
    → block_at blocks p ≡ some b
    → ¬ Memᴰ p (1 ∷ 0 ∷ [])
    → (q : ℕ) → ¬ PointsTo [] b.content q
unfolding get_gc_ptrs
blocks-unlisted zero b at n = absurd (n (Memᴰ.tail (Memᴰ.head refl)))
blocks-unlisted (suc zero) b at n = absurd (n (Memᴰ.head refl))
blocks-unlisted (suc (suc zero)) b at n =
    λ q x. Memᴰ.not-nil ((get_gc_ptrs-PointsTo [] b.content q [] (ptrs_of b _ at)).1 x)
blocks-unlisted (suc (suc (suc zero))) b at n = absurd (ground arith)
blocks-unlisted (suc (suc (suc (suc p)))) b at n = absurd (ground arith)

listed_blocks :
    (p : ℕ) → Memᴰ p (1 ∷ 0 ∷ []) → (b : Block) × (block_at blocks p ≡ some b) × (b.marked ≡ false)
listed_blocks p x = elim (Memᴰ.cases_cons x) [
  | inl e ↦
      subst (λ p. (b : Block) × (block_at blocks p ≡ some b) × (b.marked ≡ false)) (sym e)
        (_, refl, refl)
  | inr y ↦
      subst (λ p. (b : Block) × (block_at blocks p ≡ some b) × (b.marked ≡ false))
        (sym (Memᴰ.eq_of_singleton y)) (_, refl, refl)
]

sample-IsHeap : IsHeap wasm32 sample
unfolding sample new_allocator stack_roots frame_roots get_data_size
sample-IsHeap = record {
  formed = record {
    links = λ p b at. Traced-Linked wasm32 [] blocks b (blocks-Traced p b at);
    sizes = blocks-sizes;
    in_space = blocks-in_space;
  };
  rooted = points_to_0;
  spaces = record {
    current = length-replicate {A = ℕ} len 0;
    other = length-replicate {A = ℕ} len 0;
  };
  fits = omega arith;
  distinct =
      (λ x. absurd (let e = Memᴰ.eq_of_singleton x in omega arith), (λ x. Memᴰ.not-nil x, tt));
  listed = listed_blocks;
  unlisted = blocks-unlisted;
  accounted = refl;
}

mark_phase-reachable_example :
    (a : F64Allocator) × (m : List (Option Block)) × (mark_phase sample
        (stack_roots sample.shadow_stack)
      ≡ ok (record sample { f64_allocator = a; memory = m }))
    × ((p : ℕ)
        → (is_marked (block_at m p) ≡ true) ↔ (
            (is_marked (block_at sample.memory p) ≡ true)
            ⊎ Reach sample.classes sample.memory (stack_roots sample.shadow_stack) p))
mark_phase-reachable_example =
    mark_phase-reachable wasm32 sample (stack_roots sample.shadow_stack)
      (IsHeap-IsReady wasm32 sample sample-IsHeap)

gc-Collected_example :
    (h' : Heap) × (gc wasm32 sample ≡ ok h')
    × Collected wasm32 sample h'
    × (h'.classes ≡ sample.classes)
    × (h'.shadow_stack ≡ sample.shadow_stack)
    × (h'.size ≡ sample.size)
gc-Collected_example = gc-Collected wasm32 sample sample-IsHeap

alloc_or_gc-bounded_example :
    ((p : ℕ) × (h' : Heap) × (alloc_or_gc wasm32 sample (Request.any_ptr 0) ≡ ok (p, h'))
      × Allocated wasm32 h' p (Request.any_ptr 0))
    ⊎ ((h1 : Heap) × Collected wasm32 sample h1
        × (alloc_or_gc wasm32 sample (Request.any_ptr 0) ≡ panic)
        × (sample.size < h1.used_mem + (4 + 4)))
unfolding sample requested_size
alloc_or_gc-bounded_example =
    alloc_or_gc-bounded wasm32 sample (Request.any_ptr 0) 4 tt (omega arith) sample-IsHeap
      (omega arith) refl

-- The block that nothing reaches is freed, and its eight bytes are given back.
gc-sample : (gc wasm32 sample >>= λ h'. ok (h'.used_mem ∷ h'.alloc_list)) ≡ ok (16 ∷ 0 ∷ [])
unfolding sample new_allocator gc mark_phase mark_rounds mark_roots mark_root mark_block stack_roots
    frame_roots get_data_size get_gc_ptrs insert_ptr iter_to_ptrs relocate move_each move_any
    alloc_f64 semispace_swap alloc write sweep_phase sweep sweep_item
gc-sample = refl

-- An f64 of eight bytes is given back as a pointer of four: after a collection four bytes are in use by no block.
f64-lost :
    (alloc_block wasm32
        (record sample { used_mem = 0; alloc_list = []; memory = []; shadow_stack = [] })
        (Request.f64 7)
      >>= λ first.
          unwrap first >>= λ (p, h). gc wasm32 h >>= λ h'. ok (h'.used_mem ∷ h'.alloc_list))
    ≡ ok (4 ∷ [])
unfolding sample new_allocator alloc_block requested_size written alloc_raw gc mark_phase
    mark_rounds stack_roots get_data_size semispace_swap sweep_phase sweep sweep_item
f64-lost = refl
