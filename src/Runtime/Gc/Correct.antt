-- ===== src/Runtime/Gc/Correct.antt =====
-- What a collection does to a heap.
use jankscripten.Prelude.{◌≡◌, refl, sym, ap, ◌∙◌, some, arith, ok}
use jankscripten.Runtime.Gc.{Heap, Sizes}
use jankscripten.Runtime.Gc.Collect.{stack_roots, sweep_phase, gc}
use jankscripten.Runtime.Gc.Reach.{look_block, look-PointsTo, same_block, IsWellFormed-shape}
use jankscripten.Runtime.Gc.Phase.{mark_phase-Finished}
use jankscripten.Runtime.Gc.Sweep.{survivors, total_size, survivors-NoDup, sweep-Swept}
use jankscripten.Runtime.Gc.Whole.{IsHeap, Collected, total_size-same, total_size-survivors}
use jankscripten.Runtime.Gc.Safety.{
  IsHeap-IsReady, alive_iff, freed_block, kept_block, formed_after,
}

-- On a well-formed heap whose unmarked blocks' numbers fit in one space, a collection returns; the list of allocations
-- keeps exactly the blocks that can be reached from the shadow stack along the pointers in blocks, other than the keys of
-- hash tables, which the collector does not follow; the others are freed, and these keep their size and their pointers, but
-- for the keys, and are unmarked; no pointer of a block that is left dangles, unless it is a key of a hash table; and the
-- used memory is the size of the blocks that are left, no more than before. The classes, the shadow stack and the heap's
-- size stay as they were.
pub gc-Collected :
    (z : Sizes) (h : Heap)
    → IsHeap z h
    → (h' : Heap) × (gc z h ≡ ok h')
      × Collected z h h'
      × (h'.classes ≡ h.classes)
      × (h'.shadow_stack ≡ h.shadow_stack)
      × (h'.size ≡ h.size)
unfolding gc sweep_phase
gc-Collected z h w =
    let ready = IsHeap-IsReady z h w in
    let f = mark_phase-Finished z h (stack_roots h.shadow_stack) ready in
    let marked_formed =
      IsWellFormed-shape z h.classes h.memory f.m' f.inv.same f.inv.in_space w.formed in
    let s =
      sweep-Swept z (record h { f64_allocator = f.a' }) h.alloc_list f.m' h.used_mem w.distinct
        (λ p x.
          let (b0, at0, off) = w.listed p x in
          let (b, at, looks) = same_block z h.classes h.memory f.m' p b0 f.inv.same at0 in
          let (n, e) = marked_formed.sizes p b at in (b, n, at, e)) in
    let before : total_size z h.classes f.m' h.alloc_list ≡ h.used_mem =
      total_size-same z h.classes h.memory f.m' h.alloc_list (λ p x. f.inv.same p)
      ∙ sym w.accounted in
    let counted = s.counted 0 (omega arith) in
    let alive = alive_iff z h w f.m' s.m' f.a' f.inv s.inside s.outside in
    let kept = kept_block z h w f.m' s.m' f.a' f.inv s.inside s.outside in
    let after : total_size z h.classes s.m' (survivors f.m' h.alloc_list)
        ≡ total_size z h.classes f.m' (survivors f.m' h.alloc_list) =
      total_size-same z h.classes f.m' s.m' (survivors f.m' h.alloc_list) (λ p x.
        let (y, r) = (alive p).0 x in
        let (b, b', at, at', off, looks) = kept p y r in
        ap (look_block z h.classes) at'
        ∙ (ap some looks ∙ (sym (ap (look_block z h.classes) at) ∙ sym (f.inv.same p)))) in
    let less = total_size-survivors z h.classes f.m' h.alloc_list in
    (
      record h {
        f64_allocator = f.a';
        memory = s.m';
        used_mem = s.used';
        alloc_list = survivors f.m' h.alloc_list;
      },
      rw (f.returned, s.returned),
      record {
        alive = alive;
        freed = freed_block z h w f.m' s.m' f.a' f.inv s.inside s.outside;
        kept = λ p x.
            let (y, r) = (alive p).0 x in
            let (b, b', at, at', off, looks) = kept p y r in
            (
              b,
              b',
              at,
              at',
              off,
              λ q. look-PointsTo z h.classes b b' q (w.formed.links p b at).0 looks,
              ap (λ (ps, n). n) looks,
            );
        formed = formed_after z h w f.m' s.m' f.a' f.inv s.inside s.outside;
        accounted = omega arith;
        distinct = survivors-NoDup f.m' h.alloc_list w.distinct;
        less = omega arith;
      },
      refl,
      refl,
      refl,
    )
