-- ===== src/Runtime/Gc/Safety.antt =====
-- A collection returns, frees exactly what cannot be reached, and keeps the heap well-formed.
use jankscripten.Prelude.{
  ℕ, ◌≡◌, refl, sym, ap, subst, ◌∙◌, ◌↔◌, ◌⊎◌, inl, inr, true, false, Option, none, some, List, [],
  arith, Bool-cases,
}
use mathlib.Core.List.{Memᴰ}
use jankscripten.Runtime.F64Allocator.{F64Allocator}
use jankscripten.Runtime.Gc.{Block, Heap, Sizes, get_data_size, get_gc_ptrs}
use jankscripten.Runtime.Gc.Relocate.{ContentInSpace, look_content}
use jankscripten.Runtime.Gc.Collect.{block_at, stack_roots}
use jankscripten.Runtime.Gc.Pointers.{get_gc_ptrs-PointsTo}
use jankscripten.Runtime.Gc.Reach.{
  Linked, Linked-Traced, Traced-Linked, is_marked, IsBlock, same_block, IsWellFormed, link,
}
use jankscripten.Runtime.Gc.Marks.{Reachable, IsMarked, Inv, Waits}
use jankscripten.Runtime.Gc.Phase.{IsReady, IsMarked-iff}
use jankscripten.Runtime.Gc.Sweep.{swept_block, survivors, survivors-sub, survivors-all}
use jankscripten.Runtime.Gc.Whole.{
  IsHeap, mem_cases, swept_block-marked, swept_block-unmarked, swept_block-some,
}

pub IsHeap-IsReady : (z : Sizes) (h : Heap) → IsHeap z h → IsReady z h (stack_roots h.shadow_stack)
IsHeap-IsReady z h w = record {
  formed = w.formed;
  rooted = w.rooted;
  static = λ p b at on. w.unlisted p b at (λ x.
      let (b', at', off) = w.listed p x in
      let agree : b.marked ≡ b'.marked = ap is_marked (sym at ∙ at') in
      let clash : true ≡ false = sym on ∙ (agree ∙ off) in absurd (ground arith));
  spaces = w.spaces;
  fits = w.fits;
}

module _ (z : Sizes) (h : Heap) (w : IsHeap z h) where
  abbrev roots : List ℕ
  roots = stack_roots h.shadow_stack

  -- the memory `m1` after marking, the memory `m2` after sweeping
  module _ (m1 m2 : List (Option Block)) (a : F64Allocator)
      (i : Inv z h roots a m1 (Waits z h roots [] []))
      (inside : (q : ℕ) → Memᴰ q h.alloc_list → block_at m2 q ≡ swept_block (block_at m1 q))
      (outside : (q : ℕ) → ¬ Memᴰ q h.alloc_list → block_at m2 q ≡ block_at m1 q) where
    marks :
        (p : ℕ) → IsMarked z h roots m1 p ↔ (IsMarked z h roots h.memory p ⊎ Reachable z h roots p)
    marks p = IsMarked-iff z h roots (IsHeap-IsReady z h w) m1 a i p

    reached : (p : ℕ) → Memᴰ p h.alloc_list → IsMarked z h roots m1 p → Reachable z h roots p
    reached p x on = elim ((marks p).0 on) [
      | inl already ↦
          let (b, at, off) = w.listed p x in
          let clash : true ≡ false = sym already ∙ (ap is_marked at ∙ off) in absurd (ground arith)
      | inr r ↦ r
    ]

    pub alive_iff :
        (p : ℕ) → Memᴰ p (survivors m1 h.alloc_list) ↔ (Memᴰ p h.alloc_list × Reachable z h roots p)
    alive_iff p = (
      λ x. let (y, on) = survivors-sub m1 h.alloc_list p x in (y, reached p y on),
      λ (y, r). survivors-all m1 h.alloc_list p y ((marks p).1 (inr r)),
    )

    pub freed_block : (p : ℕ) → Memᴰ p h.alloc_list → ¬ Reachable z h roots p → block_at m2 p ≡ none
    freed_block p x n = elim (Bool-cases (is_marked (block_at m1 p))) [
      | inl on ↦ absurd (n (reached p x on))
      | inr off ↦ inside p x ∙ swept_block-unmarked (block_at m1 p) off
    ]

    pub kept_block :
        (p : ℕ)
        → Memᴰ p h.alloc_list
        → Reachable z h roots p
        → (b b' : Block) × (block_at h.memory p ≡ some b)
          × (block_at m2 p ≡ some b')
          × (b'.marked ≡ false)
          × (look_content z h.classes b'.content ≡ look_content z h.classes b.content)
    kept_block p x r =
        let (b1, at1, e) = swept_block-marked (block_at m1 p) ((marks p).1 (inr r)) in
        let (b, at, looks) = same_block z h.classes m1 h.memory p b1 (λ q. sym (i.same q)) at1 in
        (b, record b1 { marked = false }, at, inside p x ∙ e, refl, sym looks)

    -- a block after the collection was there before it, with the same pointers and size
    origin :
        (p : ℕ) (b : Block)
        → block_at m2 p ≡ some b
        → (b1 : Block) × (block_at m1 p ≡ some b1)
          × (b1.content ≡ b.content)
          × (Memᴰ p h.alloc_list → Reachable z h roots p)
    origin p b at = elim (mem_cases p h.alloc_list) [
      | inl x ↦
          let (b1, at1, on, same) = swept_block-some (block_at m1 p) b (sym (inside p x) ∙ at) in
          (b1, at1, same, λ _. reached p x (ap is_marked at1 ∙ on))
      | inr n ↦ (b, sym (outside p n) ∙ at, refl, λ x. absurd (n x))
    ]

    still_there : (q : ℕ) → Reachable z h roots q → IsBlock h.memory q → IsBlock m2 q
    still_there q r (b0, at0) = elim (mem_cases q h.alloc_list) [
      | inl x ↦ let (b, b', at, at', off, looks) = kept_block q x r in (b', at')
      | inr n ↦
          let (b1, at1, looks) = same_block z h.classes h.memory m1 q b0 i.same at0 in
          (b1, outside q n ∙ at1)
    ]

    links_after : (p : ℕ) (b : Block) → block_at m2 p ≡ some b → Linked z h.classes m2 b
    links_after p b at =
        let (b1, at1, same, alive) = origin p b at in
        let (b0, at0, looks) = same_block z h.classes m1 h.memory p b1 (λ q. sym (i.same q)) at1 in
        let (ts, e, blocks) = Linked-Traced z h.classes h.memory b0 (w.formed.links p b0 at0) in
        let holds =
          λ (q : ℕ) (y : Memᴰ q ts). (get_gc_ptrs-PointsTo h.classes b0.content q ts e).0 y in
        let e' : get_gc_ptrs h.classes b.content ≡ some ts =
          ap (get_gc_ptrs h.classes) (sym same) ∙ (sym (ap (λ (ps, n). ps) looks) ∙ e) in
        Traced-Linked z h.classes m2 b (
          ts,
          e',
          λ q y. elim (mem_cases p h.alloc_list) [
            | inl x ↦ still_there q (link (alive x) at0 (holds q y)) (blocks q y)
            | inr n ↦ absurd (w.unlisted p b0 at0 n q (holds q y))
          ],
        )

    pub formed_after : IsWellFormed z h.classes m2
    formed_after = record {
      links = links_after;
      sizes = λ p b at.
          let (b1, at1, same, alive) = origin p b at in
          let (b0, at0, looks) =
            same_block z h.classes m1 h.memory p b1 (λ q. sym (i.same q)) at1 in
          let (n, e) = w.formed.sizes p b0 at0 in
          (n, ap (get_data_size z h.classes) (sym same) ∙ (sym (ap (λ (ps, n). n) looks) ∙ e));
      in_space = λ p b at.
          let (b1, at1, same, alive) = origin p b at in
          subst ContentInSpace same (i.in_space p b1 at1);
    }
