-- ===== src/Runtime/Gc/Phase.antt =====
-- Marking as a whole: it returns, and marks what can be reached.
use jankscripten.Prelude.{
  ℕ, ◌+◌, ◌<◌, ◌≡◌, refl, sym, ap, ◌∙◌, ◌↔◌, ◌⊎◌, inl, inr, true, Option, some, List, [], arith,
  length, ok,
}
use mathlib.Core.List.{Memᴰ}
use mathlib.Core.List.Memᴰ
use jankscripten.Runtime.F64Allocator.{F64Allocator, semispace_swap, len}
use jankscripten.Runtime.Gc.{Block, Heap, Sizes}
use jankscripten.Runtime.Gc.Moves.{IsSized}
use jankscripten.Runtime.Gc.Collect.{block_at, mark_phase}
use jankscripten.Runtime.Gc.Pointers.{PointsTo, get_gc_ptrs-PointsTo}
use jankscripten.Runtime.Gc.Reach.{
  Linked-Traced, is_marked, unmarked, unmarked-length, numbers, IsBlock, IsWellFormed, Reach, root,
  link,
}
use jankscripten.Runtime.Gc.Marks.{Reachable, IsMarked, Inv, Waits}
use jankscripten.Runtime.Gc.Turns.{Finished, mark_rounds-Finished}

-- What the source relies on before a collection: no pointer dangles but, it may be, in the keys of hash tables, the blocks
-- that are marked already are static ones without pointers, and the numbers of the unmarked blocks fit in the other space.
pub record IsReady (z : Sizes) (h : Heap) (roots : List ℕ) : Type 0 where
  pub formed : IsWellFormed z h.classes h.memory
  pub rooted : (p : ℕ) → Memᴰ p roots → IsBlock h.memory p
  pub static :
      (p : ℕ) (b : Block)
      → block_at h.memory p ≡ some b
      → b.marked ≡ true
      → (q : ℕ) → ¬ PointsTo h.classes b.content q
  pub spaces : IsSized h.f64_allocator
  pub fits : unmarked numbers h.memory < len

module _ (z : Sizes) (h : Heap) (roots : List ℕ) (ready : IsReady z h roots) where
  pub reach_block : (p : ℕ) → Reachable z h roots p → IsBlock h.memory p
  reach_block p (root x) = ready.rooted p x
  reach_block p (link {p = q} {b = b} r at x) =
      let (known, blocks) = ready.formed.links q b at in blocks p x

  start-Inv : Inv z h roots (semispace_swap h.f64_allocator) h.memory (Waits z h roots roots [])
  unfolding semispace_swap
  start-Inv = record {
    same = λ p. refl;
    in_space = ready.formed.in_space;
    sized = record { current = ready.spaces.other; other = ready.spaces.current };
    room = (let few = ready.fits in omega arith);
    sound = λ p on. inl on;
    keeps = λ p on. on;
    started = λ p x. inr (inl x);
    closed = λ p q b ts on at e x.
        let marked : b.marked ≡ true = sym (ap is_marked at) ∙ on in
        absurd
          (ready.static p b at marked q ((get_gc_ptrs-PointsTo h.classes b.content q ts e).0 x));
    reached = λ q w. elim w [ inl x ↦ root x | inr x ↦ absurd (Memᴰ.not-nil x) ];
  }

  pub mark_phase-Finished : Finished z h roots ready.formed reach_block (mark_phase h roots)
  unfolding mark_phase
  mark_phase-Finished =
      mark_rounds-Finished z h roots ready.formed reach_block (length h.memory + 1) roots
        (semispace_swap h.f64_allocator) h.memory start-Inv
        (inl (let few = unmarked-length h.memory in omega arith))

  pub IsMarked-iff :
      (m : List (Option Block)) (a : F64Allocator)
      → Inv z h roots a m (Waits z h roots [] [])
      → (p : ℕ) → IsMarked z h roots m p ↔ (IsMarked z h roots h.memory p ⊎ Reachable z h roots p)
  IsMarked-iff m a i p = (i.sound p, λ x. elim x [ inl on ↦ i.keeps p on | inr r ↦ all p r ])
    where
      arrived : (q : ℕ) → IsMarked z h roots m q ⊎ Waits z h roots [] [] q → IsMarked z h roots m q
      arrived q (inl on) = on
      arrived q (inr (inl x)) = absurd (Memᴰ.not-nil x)
      arrived q (inr (inr x)) = absurd (Memᴰ.not-nil x)

      all : (q : ℕ) → Reachable z h roots q → IsMarked z h roots m q
      all q (root x) = arrived q (i.started q x)
      all q (link {p = p'} {b = b} r at x) =
          let (ts, e, blocks) = Linked-Traced z h.classes h.memory b (ready.formed.links p' b at) in
          arrived q (
            i.closed p' q b ts (all p' r) at e
              ((get_gc_ptrs-PointsTo h.classes b.content q ts e).1 x))

-- When no pointer dangles, the keys of hash tables apart, the blocks marked already hold no pointer, and the numbers of
-- the unmarked blocks fit in one space, `mark_phase` returns, within the rounds that it is given; it changes the memory
-- and the numbers only; and after it the marked blocks are exactly those that were marked before and those that can be
-- reached from the roots along the pointers in blocks, other than the keys of hash tables, which the collector does not follow.
pub mark_phase-reachable :
    (z : Sizes) (h : Heap) (roots : List ℕ)
    → IsReady z h roots
    → (a : F64Allocator) × (m : List (Option Block)) × (mark_phase h roots
        ≡ ok (record h { f64_allocator = a; memory = m }))
      × ((p : ℕ)
          → (is_marked (block_at m p) ≡ true)
            ↔ ((is_marked (block_at h.memory p) ≡ true) ⊎ Reach h.classes h.memory roots p))
mark_phase-reachable z h roots ready =
    let f = mark_phase-Finished z h roots ready in
    (f.a', f.m', f.returned, IsMarked-iff z h roots ready f.m' f.a' f.inv)
