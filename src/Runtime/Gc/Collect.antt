-- ===== src/Runtime/Gc/Collect.antt =====
-- Marking and sweeping (`mark_phase`, `sweep_phase` and `gc` of runtime/src/allocator/mod.rs). The loop over rounds is on fuel.
use jankscripten.Prelude.{
  ℕ, zero, suc, ◌+◌, ◌-◌, true, false, Option, none, some, List, [], ◌∷◌, ◌++◌, if◌then◌else◌,
  length, set, ok, err, ◌>>=◌, ok_or, unwrap,
}
use jankscripten.Runtime.F64Allocator.{semispace_swap}
use jankscripten.Runtime.Gc.{
  Block, Heap, dangling, out_of_fuel, Run, Sizes, layout_aligned, get_data_size, get_gc_ptrs,
  relocate,
}

abbrev pub block_at : List (Option Block) → ℕ → Option Block
block_at [] p = none
block_at (b ∷ m) zero = b
block_at (b ∷ m) (suc p) = block_at m p

unfoldable pub mark_block : Heap → List ℕ → ℕ → Block → Run (Heap × List ℕ)
mark_block h new_roots root b = unwrap (get_gc_ptrs h.classes b.content) >>= λ tags.
    relocate h.f64_allocator b.content >>= λ (content', a'). ok (
      record h {
        f64_allocator = a';
        memory = set h.memory root (some (record { marked = true; content = content' }));
      },
      new_roots ++ tags,
    )

-- one turn of `for root in current_roots.drain(0..)`
unfoldable pub mark_root : Heap → List ℕ → ℕ → Run (Heap × List ℕ)
unfolding mark_block
mark_root h new_roots root = ok_or (block_at h.memory root) dangling >>= λ b.
    if b.marked then ok (h, new_roots) else mark_block h new_roots root b

unfoldable pub mark_roots : Heap → List ℕ → List ℕ → Run (Heap × List ℕ)
unfolding mark_root
mark_roots h new_roots [] = ok (h, new_roots)
mark_roots h new_roots (root ∷ current_roots) =
    mark_root h new_roots root >>= λ (h', new_roots'). mark_roots h' new_roots' current_roots

-- `while current_roots.is_empty() == false`
unfoldable pub mark_rounds : ℕ → Heap → List ℕ → Run Heap
unfolding mark_roots
mark_rounds n h [] = ok h
mark_rounds zero h (root ∷ current_roots) = err out_of_fuel
mark_rounds (suc n) h (root ∷ current_roots) =
    mark_roots h [] (root ∷ current_roots) >>= λ (h', new_roots). mark_rounds n h' new_roots

-- Every round but the last marks a block.
unfoldable pub mark_phase : Heap → List ℕ → Run Heap
unfolding mark_rounds
mark_phase h roots =
    mark_rounds (length h.memory + 1) (record h { f64_allocator = semispace_swap h.f64_allocator })
      roots

abbrev pub tag_size : Sizes → ℕ
tag_size z = layout_aligned z.tag z.alignment

-- The invariant of the heap keeps the subtraction from going below 0.
unfoldable pub sweep_item : Sizes → Heap → ℕ → Block → Run (List ℕ × Heap)
sweep_item z h p b =
    if b.marked
    then ok (p ∷ [], record h { memory = set h.memory p (some (record b { marked = false })) })
    else (unwrap (get_data_size z h.classes b.content) >>= λ n.
        ok
          ([], record h { used_mem = h.used_mem - (tag_size z + n); memory = set h.memory p none }))

-- the loop over the list of allocations, with the items that stay in it
unfoldable pub sweep : Sizes → Heap → List ℕ → Run (List ℕ × Heap)
unfolding sweep_item
sweep z h [] = ok ([], h)
sweep z h (p ∷ ps) = ok_or (block_at h.memory p) dangling >>= λ b.
    sweep_item z h p b >>= λ (kept, h'). sweep z h' ps >>= λ (rest, h''). ok (kept ++ rest, h'')

unfoldable pub sweep_phase : Sizes → Heap → Run Heap
unfolding sweep
sweep_phase z h = sweep z h h.alloc_list >>= λ (kept, h'). ok (record h' { alloc_list = kept })

unfoldable pub frame_roots : List (Option ℕ) → List ℕ
frame_roots [] = []
frame_roots (none ∷ slots) = frame_roots slots
frame_roots (some p ∷ slots) = p ∷ frame_roots slots

unfoldable pub stack_roots : List (List (Option ℕ)) → List ℕ
unfolding frame_roots
stack_roots [] = []
stack_roots (frame ∷ frames) = frame_roots frame ++ stack_roots frames

unfoldable pub gc : Sizes → Heap → Run Heap
unfolding mark_phase sweep_phase stack_roots
gc z h = mark_phase h (stack_roots h.shadow_stack) >>= λ h'. sweep_phase z h'
