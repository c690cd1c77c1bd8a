-- ===== src/Runtime/Gc/Visit.antt =====
-- The inner marking loop keeps the invariant, and a round that finds pointers marks a block.
use jankscripten.Prelude.{
  ℕ, ◌+◌, ◌≡◌, refl, sym, ap, subst, ◌∙◌, ◌≢◌, ◌⊎◌, inl, inr, true, false, Option, some, List, ◌∷◌,
  ◌++◌, arith, ℕ_discrete, set,
}
use mathlib.Core.List.{Memᴰ}
use mathlib.Core.List.Memᴰ
use jankscripten.Prelude.{some-inj}
use jankscripten.Runtime.F64Allocator.{F64Allocator}
use jankscripten.Runtime.Gc.Moves.{IsSized}
use jankscripten.Runtime.Gc.{Content, Block, Heap, Sizes, get_gc_ptrs}
use jankscripten.Runtime.Gc.Relocate.{ContentInSpace, look_content}
use jankscripten.Runtime.Gc.Collect.{block_at}
use jankscripten.Runtime.Gc.Pointers.{get_gc_ptrs-PointsTo}
use jankscripten.Runtime.Gc.Reach.{
  block_at-set_self, block_at-set_ne, is_marked, unmarked-set, numbers, look_block, look_at,
  same_block, SameShape, link,
}
use jankscripten.Runtime.Gc.Marks.{Reachable, IsMarked, Inv, Waits, Waits-next}

module _ (z : Sizes) (h0 : Heap) (roots : List ℕ) where
  -- A visit to an unmarked block, which holds the pointers `ts`, marks it with the contents `c`.
  module _ (a a' : F64Allocator) (m : List (Option Block)) (r : ℕ) (cs new ts : List ℕ)
      (i : Inv z h0 roots a m (Waits z h0 roots (r ∷ cs) new)) (b : Block)
      (at : block_at m r ≡ some b) (off : b.marked ≡ false)
      (e : get_gc_ptrs h0.classes b.content ≡ some ts) (c : Content)
      (kept : look_content z h0.classes c ≡ look_content z h0.classes b.content) where
    abbrev visited : List (Option Block)
    visited = set m r (some (record { marked = true; content = c }))

    at_visited : block_at visited r ≡ some (record { marked = true; content = c })
    at_visited = block_at-set_self m r b (some (record { marked = true; content = c })) at

    abbrev elsewhere : (p : ℕ) → r ≢ p → block_at visited p ≡ block_at m p
    elsewhere p n = block_at-set_ne m (some (record { marked = true; content = c })) n

    on_visited : IsMarked z h0 roots visited r
    on_visited = ap is_marked at_visited

    grows : (p : ℕ) → IsMarked z h0 roots m p → IsMarked z h0 roots visited p
    grows p on = elim (ℕ_discrete r p) [
      | yes same ↦ subst (IsMarked z h0 roots visited) same on_visited
      | no n ↦ ap is_marked (elsewhere p n) ∙ on
    ]

    settled :
        (q : ℕ)
        → IsMarked z h0 roots m q ⊎ Waits z h0 roots (r ∷ cs) new q
        → IsMarked z h0 roots visited q ⊎ Waits z h0 roots cs (new ++ ts) q
    settled q (inl on) = inl (grows q on)
    settled q (inr w) = elim (Waits-next z h0 roots r q cs new w) [
      | inl same ↦ inl (subst (IsMarked z h0 roots visited) (sym same) on_visited)
      | inr (inl x) ↦ inr (inl x)
      | inr (inr x) ↦ inr (inr (Memᴰ.append_left ts x))
    ]

    was_reached : Reachable z h0 roots r
    was_reached = i.reached r (inl (Memᴰ.head refl))

    reached_next : (q : ℕ) → Waits z h0 roots cs (new ++ ts) q → Reachable z h0 roots q
    reached_next q (inl x) = i.reached q (inl (Memᴰ.tail x))
    reached_next q (inr x) = elim (Memᴰ.append_cases new x) [
      | inl y ↦ i.reached q (inr y)
      | inr y ↦
          let (b0, at0, looks) = same_block z h0.classes m h0.memory r b (λ p. sym (i.same p)) at in
          link was_reached at0
            ((get_gc_ptrs-PointsTo h0.classes b0.content q ts (ap (λ (ps, n). ps) looks ∙ e)).0 y)
    ]

    closed_next :
        (p q : ℕ) (b1 : Block) (us : List ℕ)
        → IsMarked z h0 roots visited p
        → block_at h0.memory p ≡ some b1
        → get_gc_ptrs h0.classes b1.content ≡ some us
        → Memᴰ q us
        → IsMarked z h0 roots visited q ⊎ Waits z h0 roots cs (new ++ ts) q
    closed_next p q b1 us on at1 e1 x = elim (ℕ_discrete r p) [
      | yes same ↦
          let looks : look_block z h0.classes (some b) ≡ look_block z h0.classes (some b1) =
            sym (ap (look_block z h0.classes) at)
            ∙ (i.same r
                ∙ (ap (look_at z h0.classes h0.memory) same ∙ ap (look_block z h0.classes) at1)) in
          let agree : ts ≡ us = some-inj (sym e ∙ (ap (λ (ps, n). ps) (some-inj looks) ∙ e1)) in
          inr (inr (Memᴰ.append_right new (subst (Memᴰ q) (sym agree) x)))
      | no n ↦ settled q (i.closed p q b1 us (sym (ap is_marked (elsewhere p n)) ∙ on) at1 e1 x)
    ]

    same_next : SameShape z h0.classes h0.memory visited
    same_next p = elim (ℕ_discrete r p) [
      | yes same ↦
          subst (λ p. look_at z h0.classes visited p ≡ look_at z h0.classes h0.memory p) same
            (ap (look_block z h0.classes) at_visited
              ∙ (ap some kept ∙ (sym (ap (look_block z h0.classes) at) ∙ i.same r)))
      | no n ↦ ap (look_block z h0.classes) (elsewhere p n) ∙ i.same p
    ]

    space_next :
        ContentInSpace c
        → (p : ℕ) (b1 : Block) → block_at visited p ≡ some b1
        → ContentInSpace b1.content
    space_next good p b1 at1 = elim (ℕ_discrete r p) [
      | yes same ↦
          subst (λ (x : Block). ContentInSpace x.content)
            (some-inj (sym at_visited ∙ (ap (block_at visited) same ∙ at1))) good
      | no n ↦ i.in_space p b1 (sym (elsewhere p n) ∙ at1)
    ]

    sound_next :
        (p : ℕ)
        → IsMarked z h0 roots visited p
        → IsMarked z h0 roots h0.memory p ⊎ Reachable z h0 roots p
    sound_next p on = elim (ℕ_discrete r p) [
      | yes same ↦ inr (subst (Reachable z h0 roots) same was_reached)
      | no n ↦ i.sound p (sym (ap is_marked (elsewhere p n)) ∙ on)
    ]

    pub visit-Inv :
        ContentInSpace c
        → IsSized a'
        → a'.next_slot ≡ a.next_slot + numbers b
        → Inv z h0 roots a' visited (Waits z h0 roots cs (new ++ ts))
    visit-Inv good sized next = record {
      same = same_next;
      in_space = space_next good;
      sized = sized;
      room =
          (let fewer =
              unmarked-set numbers m r b (record { marked = true; content = c }) at off refl in
            let before = i.room in omega arith);
      sound = sound_next;
      keeps = λ p on. grows p (i.keeps p on);
      started = λ p x. settled p (i.started p x);
      closed = closed_next;
      reached = reached_next;
    }
