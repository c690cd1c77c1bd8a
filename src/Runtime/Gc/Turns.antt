-- ===== src/Runtime/Gc/Turns.antt =====
-- The marking loops: every visit keeps the invariant, and a round that finds pointers marks a block.
use jankscripten.Prelude.{
  ℕ, zero, suc, ◌<◌, ◌≡◌, refl, sym, ap, subst, ◌∙◌, ◌⊎◌, inl, inr, true, false, Option, some, List,
  [], ◌∷◌, ◌++◌, arith, Bool-cases, set, ok,
}
use mathlib.Core.List.{Memᴰ}
use mathlib.Core.List.Memᴰ
use jankscripten.Runtime.F64Allocator.{F64Allocator}
use jankscripten.Runtime.Gc.{Block, Heap, Run, Sizes}
use jankscripten.Runtime.Gc.Relocate.{relocate-Moves}
use jankscripten.Runtime.Gc.Collect.{block_at, mark_block, mark_root, mark_roots, mark_rounds}
use jankscripten.Runtime.Gc.Reach.{
  Linked-Traced, is_marked, unmarked, unmarked-set, numbers, same_block, IsWellFormed,
  IsWellFormed-shape,
}
use jankscripten.Runtime.Gc.Marks.{during, Reachable, IsMarked, Inv, Waits, Turned, skip}
use jankscripten.Runtime.Gc.Visit.{visit-Inv}

module _ (z : Sizes) (h0 : Heap) (roots : List ℕ) (wf : IsWellFormed z h0.classes h0.memory)
    (rooted : (p : ℕ)
      → Reachable z h0 roots p
      → (b : Block) × (block_at h0.memory p ≡ some b)) where
  mark_block-Turned :
      (a : F64Allocator) (m : List (Option Block)) (r : ℕ) (cs new : List ℕ) (b : Block)
      → Inv z h0 roots a m (Waits z h0 roots (r ∷ cs) new)
      → block_at m r ≡ some b
      → b.marked ≡ false
      → Turned z h0 roots (mark_block (during z h0 roots a m) new r b) m cs new
  unfolding mark_block
  mark_block-Turned a m r cs new b i at off =
      let now = IsWellFormed-shape z h0.classes h0.memory m i.same i.in_space wf in
      let (ts, e, blocks) = Linked-Traced z h0.classes m b (now.links r b at) in
      let fewer =
        unmarked-set numbers m r b (record { marked = true; content = b.content }) at off refl in
      let before = i.room in
      let moved =
        relocate-Moves z h0.classes a b.content i.sized (omega arith) (i.in_space r b at) in
      let one =
        unmarked-set (λ b. 1) m r b (record { marked = true; content = moved.moved }) at off refl in
      record {
        a' = moved.after;
        m' = set m r (some (record { marked = true; content = moved.moved }));
        new_roots' = new ++ ts;
        returned = rw (e, moved.returned);
        inv =
            visit-Inv z h0 roots a moved.after m r cs new ts i b at off e moved.moved moved.kept
              moved.good moved.sized moved.next;
        progress = inr (omega arith);
      }

  mark_root-Turned :
      (a : F64Allocator) (m : List (Option Block)) (r : ℕ) (cs new : List ℕ)
      → Inv z h0 roots a m (Waits z h0 roots (r ∷ cs) new)
      → Turned z h0 roots (mark_root (during z h0 roots a m) new r) m cs new
  unfolding mark_root
  mark_root-Turned a m r cs new i =
      let (b0, at0) = rooted r (i.reached r (inl (Memᴰ.head refl))) in
      let (b, at, looks) = same_block z h0.classes h0.memory m r b0 i.same at0 in
      elim (Bool-cases b.marked) [
        | inl on ↦ record {
          a' = a;
          m' = m;
          new_roots' = new;
          returned = rw (at, on);
          inv = skip z h0 roots a m r cs new i (ap is_marked at ∙ on);
          progress = inl (refl, refl);
        }
        | inr off ↦
            let turned = mark_block-Turned a m r cs new b i at off in
            record {
              a' = turned.a';
              m' = turned.m';
              new_roots' = turned.new_roots';
              returned = rw (at, off) turned.returned;
              inv = turned.inv;
              progress = turned.progress;
            }
      ]

  mark_roots-Turned :
      (cs new : List ℕ) (a : F64Allocator) (m : List (Option Block))
      → Inv z h0 roots a m (Waits z h0 roots cs new)
      → Turned z h0 roots (mark_roots (during z h0 roots a m) new cs) m [] new
  unfolding mark_roots
  mark_roots-Turned [] new a m i = record {
    a' = a;
    m' = m;
    new_roots' = new;
    returned = refl;
    inv = i;
    progress = inl (refl, refl);
  }
  mark_roots-Turned (r ∷ cs) new a m i =
      let first = mark_root-Turned a m r cs new i in
      let rest = mark_roots-Turned cs first.new_roots' first.a' first.m' first.inv in
      record {
        a' = rest.a';
        m' = rest.m';
        new_roots' = rest.new_roots';
        returned = rw (first.returned, rest.returned);
        inv = rest.inv;
        progress = elim first.progress [
          | inl (same_roots, same_memory) ↦ elim rest.progress [
            | inl (same_roots', same_memory') ↦
                inl (same_roots' ∙ same_roots, same_memory' ∙ same_memory)
            | inr fewer ↦
                inr (subst (λ x. unmarked (λ b. 1) rest.m' < unmarked (λ b. 1) x) same_memory fewer)
          ]
          | inr fewer ↦ elim rest.progress [
            | inl (same_roots', same_memory') ↦
                inr
                  (subst (λ x. unmarked (λ b. 1) x < unmarked (λ b. 1) m) (sym same_memory') fewer)
            | inr fewer' ↦ inr (omega arith)
          ]
        ];
      }

  renamed :
      (a : F64Allocator) (m : List (Option Block)) (new : List ℕ)
      → Inv z h0 roots a m (Waits z h0 roots [] new)
      → Inv z h0 roots a m (Waits z h0 roots new [])
  renamed a m new i = record {
    same = i.same;
    in_space = i.in_space;
    sized = i.sized;
    room = i.room;
    sound = i.sound;
    keeps = i.keeps;
    started = λ p x. other p (i.started p x);
    closed = λ p q b ts on at e x. other q (i.closed p q b ts on at e x);
    reached = λ q w. elim w [ inl x ↦ i.reached q (inr x) | inr x ↦ absurd (Memᴰ.not-nil x) ];
  }
    where
      other :
          (q : ℕ)
          → IsMarked z h0 roots m q ⊎ Waits z h0 roots [] new q
          → IsMarked z h0 roots m q ⊎ Waits z h0 roots new [] q
      other q (inl on) = inl on
      other q (inr (inl x)) = absurd (Memᴰ.not-nil x)
      other q (inr (inr x)) = inr (inl x)

  -- a heap in which nothing waits any more
  pub record Finished (run : Run Heap) : Type 0 where
    pub a' : F64Allocator
    pub m' : List (Option Block)
    pub returned : run ≡ ok (during z h0 roots a' m')
    pub inv : Inv z h0 roots a' m' (Waits z h0 roots [] [])

  pub mark_rounds-Finished :
      (n : ℕ) (rs : List ℕ) (a : F64Allocator) (m : List (Option Block))
      → Inv z h0 roots a m (Waits z h0 roots rs [])
      → (unmarked (λ b. 1) m < n) ⊎ (rs ≡ [])
      → Finished (mark_rounds n (during z h0 roots a m) rs)
  unfolding mark_rounds
  mark_rounds-Finished zero [] a m i enough = record { a' = a; m' = m; returned = refl; inv = i }
  mark_rounds-Finished (suc n) [] a m i enough = record { a' = a; m' = m; returned = refl; inv = i }
  mark_rounds-Finished zero (r ∷ rs) a m i (inl few) = absurd (omega arith)
  mark_rounds-Finished zero (r ∷ rs) a m i (inr e) = absurd (ground arith)
  mark_rounds-Finished (suc n) (r ∷ rs) a m i (inr e) = absurd (ground arith)
  mark_rounds-Finished (suc n) (r ∷ rs) a m i (inl few) =
      let turned = mark_roots-Turned (r ∷ rs) [] a m i in
      let next = renamed turned.a' turned.m' turned.new_roots' turned.inv in
      let rest =
        mark_rounds-Finished n turned.new_roots' turned.a' turned.m' next (elim turned.progress [
          | inl (none_new, _) ↦ inr none_new
          | inr fewer ↦ inl (omega arith)
        ]) in
      record {
        a' = rest.a';
        m' = rest.m';
        returned = rw turned.returned rest.returned;
        inv = rest.inv;
      }
