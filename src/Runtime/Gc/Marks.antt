-- ===== src/Runtime/Gc/Marks.antt =====
-- The invariant of the marking loops, and one turn of the inner one.
use jankscripten.Prelude.{
  ℕ, ◌+◌, ◌<◌, ◌≡◌, sym, subst, ◌⊎◌, inl, inr, true, Option, some, List, ◌∷◌, ok,
}
use mathlib.Core.List.{Memᴰ}
use mathlib.Core.List.Memᴰ
use jankscripten.Runtime.F64Allocator.{F64Allocator, len}
use jankscripten.Runtime.Gc.{Block, Heap, Run, Sizes, get_gc_ptrs}
use jankscripten.Runtime.Gc.Moves.{IsSized}
use jankscripten.Runtime.Gc.Relocate.{ContentInSpace}
use jankscripten.Runtime.Gc.Collect.{block_at}
use jankscripten.Runtime.Gc.Reach.{is_marked, unmarked, numbers, SameShape, Reach}

module _ (z : Sizes) (h0 : Heap) (roots : List ℕ) where
  -- the heap while it is marked
  abbrev pub during : F64Allocator → List (Option Block) → Heap
  during a m = record h0 { f64_allocator = a; memory = m }

  abbrev pub Reachable : ℕ → Type 0
  Reachable = Reach h0.classes h0.memory roots

  abbrev pub IsMarked : List (Option Block) → ℕ → Type 0
  IsMarked m p = is_marked (block_at m p) ≡ true

  -- `waiting` says which addresses are still to be visited.
  pub record Inv (a : F64Allocator) (m : List (Option Block)) (waiting : ℕ → Type 0) : Type 0 where
    pub same : SameShape z h0.classes h0.memory m
    pub in_space : (p : ℕ) (b : Block) → block_at m p ≡ some b → ContentInSpace b.content
    pub sized : IsSized a
    pub room : a.next_slot + unmarked numbers m < len
    pub sound : (p : ℕ) → IsMarked m p → IsMarked h0.memory p ⊎ Reachable p
    pub keeps : (p : ℕ) → IsMarked h0.memory p → IsMarked m p
    pub started : (p : ℕ) → Memᴰ p roots → IsMarked m p ⊎ waiting p
    pub closed :
        (p q : ℕ) (b : Block) (ts : List ℕ)
        → IsMarked m p
        → block_at h0.memory p ≡ some b
        → get_gc_ptrs h0.classes b.content ≡ some ts
        → Memᴰ q ts
        → IsMarked m q ⊎ waiting q
    pub reached : (q : ℕ) → waiting q → Reachable q

  abbrev pub Waits : List ℕ → List ℕ → ℕ → Type 0
  Waits current_roots new_roots q = Memᴰ q current_roots ⊎ Memᴰ q new_roots

  -- what one or more turns of the inner loop return
  pub record Turned (run : Run (Heap × List ℕ)) (m : List (Option Block))
      (current_roots new_roots : List ℕ) : Type 0 where
    pub a' : F64Allocator
    pub m' : List (Option Block)
    pub new_roots' : List ℕ
    pub returned : run ≡ ok (during a' m', new_roots')
    pub inv : Inv a' m' (Waits current_roots new_roots')
    pub progress :
        ((new_roots' ≡ new_roots) × (m' ≡ m)) ⊎ (unmarked (λ b. 1) m' < unmarked (λ b. 1) m)

  -- an address that waits is that of the first root, or waits after it
  pub Waits-next : (r q : ℕ) (cs new : List ℕ) → Waits (r ∷ cs) new q → (q ≡ r) ⊎ Waits cs new q
  Waits-next r q cs new (inr x) = inr (inr x)
  Waits-next r q cs new (inl x) = elim (Memᴰ.cases_cons x) [ inl e ↦ inl e | inr y ↦ inr (inl y) ]

  -- A visit to a marked block changes nothing.
  pub skip :
      (a : F64Allocator) (m : List (Option Block)) (r : ℕ) (cs new : List ℕ)
      → Inv a m (Waits (r ∷ cs) new)
      → IsMarked m r
      → Inv a m (Waits cs new)
  skip a m r cs new i marked = record {
    same = i.same;
    in_space = i.in_space;
    sized = i.sized;
    room = i.room;
    sound = i.sound;
    keeps = i.keeps;
    started = λ p x. settle p (i.started p x);
    closed = λ p q b ts on at e x. settle q (i.closed p q b ts on at e x);
    reached = λ q w. i.reached q (later q w);
  }
    where
      settle : (q : ℕ) → IsMarked m q ⊎ Waits (r ∷ cs) new q → IsMarked m q ⊎ Waits cs new q
      settle q (inl on) = inl on
      settle q (inr w) = elim (Waits-next r q cs new w) [
        | inl e ↦ inl (subst (IsMarked m) (sym e) marked)
        | inr w' ↦ inr w'
      ]

      later : (q : ℕ) → Waits cs new q → Waits (r ∷ cs) new q
      later q (inl x) = inl (Memᴰ.tail x)
      later q (inr x) = inr x
