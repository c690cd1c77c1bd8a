-- ===== src/Runtime/Gc/Reach.antt =====
-- Blocks by address, what a collection keeps of them, and what is reachable.
use jankscripten.Prelude.{
  ℕ, zero, suc, ◌+◌, ◌≤◌, ◌≡◌, refl, sym, ap, ◌∙◌, ◌≢◌, ◌↔◌, Bool, true, false, Option, none, some,
  List, [], ◌∷◌, arith, if◌then◌else◌, length, set,
}
use mathlib.Core.List.{Memᴰ}
use jankscripten.Prelude.{some-inj}
use jankscripten.Runtime.Gc.{Block, ClassKeys, Sizes, get_data_size, get_gc_ptrs}
use jankscripten.Runtime.Gc.Relocate.{numbers_in, ContentInSpace, look_content}
use jankscripten.Runtime.Gc.Collect.{block_at}
use jankscripten.Runtime.Gc.Pointers.{
  PointsTo, IsKnown, get_gc_ptrs-PointsTo, get_gc_ptrs-IsKnown, IsKnown-get_gc_ptrs,
}

pub block_at-set_self :
    (m : List (Option Block)) (p : ℕ) (b : Block) (x : Option Block)
    → block_at m p ≡ some b
    → block_at (set m p x) p ≡ x
block_at-set_self [] p b x h = absurd (ground arith)
block_at-set_self (y ∷ m) zero b x h = refl
block_at-set_self (y ∷ m) (suc p) b x h = block_at-set_self m p b x h

pub block_at-set_ne :
    (m : List (Option Block)) {p q : ℕ} (x : Option Block)
    → p ≢ q
    → block_at (set m p x) q ≡ block_at m q
block_at-set_ne [] x n = refl
block_at-set_ne (y ∷ m) {p = zero} {q = zero} x n = absurd (n refl)
block_at-set_ne (y ∷ m) {p = zero} {q = suc q} x n = refl
block_at-set_ne (y ∷ m) {p = suc p} {q = zero} x n = refl
block_at-set_ne (y ∷ m) {p = suc p} {q = suc q} x n = block_at-set_ne m x (λ e. n (ap suc e))

abbrev pub is_marked : Option Block → Bool
is_marked none = false
is_marked (some b) = b.marked

abbrev pub weight : (Block → ℕ) → Option Block → ℕ
weight w none = 0
weight w (some b) = if b.marked then 0 else w b

-- the sum of `w` over the blocks that are not marked
abbrev pub unmarked : (Block → ℕ) → List (Option Block) → ℕ
unmarked w [] = 0
unmarked w (x ∷ m) = weight w x + unmarked w m

pub unmarked-set :
    (w : Block → ℕ) (m : List (Option Block)) (p : ℕ) (b b' : Block)
    → block_at m p ≡ some b
    → b.marked ≡ false
    → b'.marked ≡ true
    → unmarked w (set m p (some b')) + w b ≡ unmarked w m
unmarked-set w [] p b b' h off on = absurd (ground arith)
unmarked-set w (x ∷ m) zero b b' h off on =
    let before : weight w x ≡ w b = rw (h, off) in
    let after : weight w (some b') ≡ 0 = rw on in omega arith
unmarked-set w (x ∷ m) (suc p) b b' h off on =
    let e = unmarked-set w m p b b' h off on in omega arith

pub unmarked-length : (m : List (Option Block)) → unmarked (λ b. 1) m ≤ length m
unmarked-length [] = omega arith
unmarked-length (none ∷ m) = let l = unmarked-length m in omega arith
unmarked-length (some b ∷ m) =
    let l = unmarked-length m in
    let one : weight (λ b. 1) (some b) ≤ 1 = ground arith in omega arith

abbrev pub numbers : Block → ℕ
numbers b = numbers_in b.content

abbrev pub IsBlock : List (Option Block) → ℕ → Type 0
IsBlock m p = (b : Block) × (block_at m p ≡ some b)

module _ (z : Sizes) (cs : List ClassKeys) where
  abbrev pub look_block : Option Block → Option (Option (List ℕ) × Option ℕ)
  look_block none = none
  look_block (some b) = some (look_content z cs b.content)

  abbrev pub look_at : List (Option Block) → ℕ → Option (Option (List ℕ) × Option ℕ)
  look_at m p = look_block (block_at m p)

  pub look_block-some :
      (x : Option Block) (l : Option (List ℕ) × Option ℕ)
      → look_block x ≡ some l
      → (b : Block) × (x ≡ some b) × (look_content z cs b.content ≡ l)
  look_block-some none l h = absurd (ground arith)
  look_block-some (some b) l h = (b, refl, some-inj h)

  -- the same blocks, with the same pointers and sizes
  abbrev pub SameShape : List (Option Block) → List (Option Block) → Type 0
  SameShape m m' = (p : ℕ) → look_at m' p ≡ look_at m p

  -- the same block in another memory of the same shape
  pub same_block :
      (m m' : List (Option Block)) (p : ℕ) (b : Block)
      → SameShape m m'
      → block_at m p ≡ some b
      → (b' : Block) × (block_at m' p ≡ some b')
        × (look_content z cs b'.content ≡ look_content z cs b.content)
  same_block m m' p b same at =
      look_block-some (block_at m' p) (look_content z cs b.content) (same p ∙ ap look_block at)

  -- The block's class is known, and the addresses that it holds, other than the keys of a table, lead to blocks.
  abbrev pub Linked : List (Option Block) → Block → Type 0
  Linked m b = IsKnown cs b.content × ((q : ℕ) → PointsTo cs b.content q → IsBlock m q)

  abbrev pub Traced : List (Option Block) → Block → Type 0
  Traced m b =
      (ts : List ℕ) × (get_gc_ptrs cs b.content ≡ some ts) × ((q : ℕ) → Memᴰ q ts → IsBlock m q)

  pub Linked-Traced : (m : List (Option Block)) (b : Block) → Linked m b → Traced m b
  Linked-Traced m b (known, blocks) =
      let (ts, e) = IsKnown-get_gc_ptrs cs b.content known in
      (ts, e, λ q x. blocks q ((get_gc_ptrs-PointsTo cs b.content q ts e).0 x))

  pub Traced-Linked : (m : List (Option Block)) (b : Block) → Traced m b → Linked m b
  Traced-Linked m b (ts, e, blocks) = (
    get_gc_ptrs-IsKnown cs b.content ts e,
    λ q x. blocks q ((get_gc_ptrs-PointsTo cs b.content q ts e).1 x),
  )

  pub look-PointsTo :
      (b b' : Block) (q : ℕ)
      → IsKnown cs b.content
      → look_content z cs b'.content ≡ look_content z cs b.content
      → PointsTo cs b'.content q ↔ PointsTo cs b.content q
  look-PointsTo b b' q known looks =
      let (ts, e) = IsKnown-get_gc_ptrs cs b.content known in
      let e' : get_gc_ptrs cs b'.content ≡ some ts = ap (λ (ps, n). ps) looks ∙ e in
      let old = get_gc_ptrs-PointsTo cs b.content q ts e in
      let new = get_gc_ptrs-PointsTo cs b'.content q ts e' in
      (λ x. old.0 (new.1 x), λ x. new.0 (old.1 x))

  -- Every block's class is known, the addresses that it holds lead to blocks, and its numbers lie in their space.
  pub record IsWellFormed (m : List (Option Block)) : Type 0 where
    pub links : (p : ℕ) (b : Block) → block_at m p ≡ some b → Linked m b
    pub sizes :
        (p : ℕ) (b : Block)
        → block_at m p ≡ some b
        → (n : ℕ) × (get_data_size z cs b.content ≡ some n)
    pub in_space : (p : ℕ) (b : Block) → block_at m p ≡ some b → ContentInSpace b.content

  pub IsWellFormed-shape :
      (m m' : List (Option Block))
      → SameShape m m'
      → ((p : ℕ) (b : Block) → block_at m' p ≡ some b → ContentInSpace b.content)
      → IsWellFormed m
      → IsWellFormed m'
  IsWellFormed-shape m m' same space w = record {
    links = λ p b at.
        let (b0, at0, looks) = same_block m' m p b (λ q. sym (same q)) at in
        let (ts, e, blocks) = Linked-Traced m b0 (w.links p b0 at0) in
        Traced-Linked m' b (
          ts,
          sym (ap (λ (ps, n). ps) looks) ∙ e,
          λ q inside.
              let (c, at_q) = blocks q inside in
              let (c', at_q', _) = same_block m m' q c same at_q in (c', at_q'),
        );
    sizes = λ p b at.
        let (b0, at0, looks) = same_block m' m p b (λ q. sym (same q)) at in
        let (n, e) = w.sizes p b0 at0 in (n, sym (ap (λ (ps, n). n) looks) ∙ e);
    in_space = space;
  }

-- what can be reached from the roots along the addresses that blocks hold, other than the keys of hash tables
pub data Reach (cs : List ClassKeys) (m : List (Option Block)) (roots : List ℕ) : ℕ → Type 0 where
  root : {p : ℕ} → Memᴰ p roots → Reach cs m roots p
  link :
      {p q : ℕ} {b : Block}
      → Reach cs m roots p
      → block_at m p ≡ some b
      → PointsTo cs b.content q
      → Reach cs m roots q
