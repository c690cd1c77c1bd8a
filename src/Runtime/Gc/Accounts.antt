-- ===== src/Runtime/Gc/Accounts.antt =====
-- Allocation keeps the account of the used memory, and succeeds when the live blocks leave room.
use jankscripten.Prelude.{
  ℕ, zero, suc, ◌+◌, ◌-◌, ◌≤◌, ◌<◌, ◌≡◌, refl, sym, ap, ap₂, subst, ◌∙◌, ◌⊎◌, inl, inr, false,
  Option, none, some, List, [], ◌∷◌, ◌++◌, arith, ltb, Bool-cases, length, replicate, ok, panic,
}
use mathlib.Core.List.{Memᴰ}
use mathlib.Core.List.Memᴰ
use jankscripten.Runtime.Gc.{
  Content, Block, ClassKeys, Heap, Sizes, layout_aligned, class_size, object_data_size,
  get_data_size,
}
use jankscripten.Runtime.Gc.Collect.{block_at, tag_size}
use jankscripten.Runtime.Gc.Allocate.{
  Request, requested_size, written, empty_fields, alloc_raw, alloc_block, retry_alloc, alloc_or_gc,
}
use jankscripten.Runtime.Gc.Reach.{IsBlock}
use jankscripten.Runtime.Gc.Sweep.{NoDup, or_zero, size_of_block, total_size}
use jankscripten.Runtime.Gc.Whole.{IsHeap, Collected}
use jankscripten.Runtime.Gc.Correct.{gc-Collected}

-- The used memory is the size of the listed blocks, and no more than the heap's size.
pub record IsAccounted (z : Sizes) (h : Heap) : Type 0 where
  pub distinct : NoDup h.alloc_list
  pub listed : (p : ℕ) → Memᴰ p h.alloc_list → IsBlock h.memory p
  pub accounted : h.used_mem ≡ total_size z h.classes h.memory h.alloc_list
  pub bounded : h.used_mem ≤ h.size

-- The new block is listed and holds what was to be written.
pub record Allocated (z : Sizes) (h' : Heap) (p : ℕ) (request : Request) : Type 0 where
  pub account : IsAccounted z h'
  pub content : Content
  pub as_written : written h'.classes request ≡ some content
  pub new_block : block_at h'.memory p ≡ some (record { marked = false; content = content })
  pub listed_new : Memᴰ p h'.alloc_list

block_at-append :
    (m : List (Option Block)) (x : Option Block) (p : ℕ) (b : Block)
    → block_at m p ≡ some b
    → block_at (m ++ (x ∷ [])) p ≡ some b
block_at-append [] x p b at = absurd (ground arith)
block_at-append (y ∷ m) x zero b at = at
block_at-append (y ∷ m) x (suc p) b at = block_at-append m x p b at

block_at-last :
    (m : List (Option Block)) (x : Option Block) → block_at (m ++ (x ∷ [])) (length m) ≡ x
block_at-last [] x = refl
block_at-last (y ∷ m) x = block_at-last m x

block_at-length : (m : List (Option Block)) → block_at m (length m) ≡ none
block_at-length [] = refl
block_at-length (y ∷ m) = block_at-length m

total_size-append :
    (z : Sizes) (cs : List ClassKeys) (m : List (Option Block)) (x : Option Block) (ps : List ℕ)
    → ((p : ℕ) → Memᴰ p ps → IsBlock m p)
    → total_size z cs (m ++ (x ∷ [])) ps ≡ total_size z cs m ps
total_size-append z cs m x [] blocks = refl
total_size-append z cs m x (p ∷ ps) blocks =
    let (b, at) = blocks p (Memᴰ.head refl) in
    ap₂ (λ b n. size_of_block z cs b + n) (block_at-append m x p b at ∙ sym at)
      (total_size-append z cs m x ps (λ q y. blocks q (Memᴰ.tail y)))

-- The request is for no f64, which `alloc` writes with the tag of a pointer, and an `ObjectDataPtr` takes one aligned word.
abbrev pub Agrees : Sizes → Request → Type 0
Agrees z (Request.f64 x) = ⊥
Agrees z (Request.object_data_ptr p) = layout_aligned z.object_ptr z.alignment ≡ z.alignment
Agrees z _ = Unit {0}

-- what is allocated and its size, as the collector sees both
abbrev Sized : Sizes → List ClassKeys → Request → ℕ → Type 0
Sized z cs request n =
    (content : Content) × (written cs request ≡ some content)
    × (get_data_size z cs content ≡ some n)

empty_fields-Sized :
    (z : Sizes) (cs : List ClassKeys) (tag n : ℕ) (size : Option ℕ)
    → class_size cs tag ≡ size
    → object_data_size z size ≡ some n
    → (content : Content) × (empty_fields tag size ≡ some content)
      × (get_data_size z cs content ≡ some n)
unfolding get_data_size
empty_fields-Sized z cs tag n none at e = absurd (ground arith)
empty_fields-Sized z cs tag n (some k) at e =
    (Content.dyn_object tag (replicate k none), refl, ap (object_data_size z) at ∙ e)

requested_size-Sized :
    (z : Sizes) (cs : List ClassKeys) (request : Request) (n : ℕ)
    → Agrees z request
    → requested_size z cs request ≡ some n
    → Sized z cs request n
unfolding requested_size written get_data_size
requested_size-Sized z cs (Request.str bytes) n a e = (_, refl, e)
requested_size-Sized z cs (Request.env values fn_obj) n a e = (_, refl, e)
requested_size-Sized z cs (Request.object_data tag) n a e =
    empty_fields-Sized z cs tag n (class_size cs tag) refl e
requested_size-Sized z cs (Request.hash_map entries) n a e = (_, refl, e)
requested_size-Sized z cs (Request.vec values) n a e = (_, refl, e)
requested_size-Sized z cs (Request.any_value value) n a e = (_, refl, e)
requested_size-Sized z cs (Request.object_data_ptr p) n a e = (_, refl, sym (ap some a) ∙ e)
requested_size-Sized z cs (Request.any_ptr p) n a e = (_, refl, e)
requested_size-Sized z cs (Request.i32 m) n a e = (_, refl, e)
requested_size-Sized z cs (Request.f64 x) n a e = absurd a

abbrev grown : Heap → ℕ → Content → Heap
grown h bytes content = record h {
  used_mem = h.used_mem + bytes;
  alloc_list = length h.memory ∷ h.alloc_list;
  memory = h.memory ++ (some (record { marked = false; content = content }) ∷ []);
}

grown-Allocated :
    (z : Sizes) (h : Heap) (n : ℕ) (request : Request) (content : Content)
    → IsAccounted z h
    → written h.classes request ≡ some content
    → get_data_size z h.classes content ≡ some n
    → h.used_mem + (tag_size z + n) ≤ h.size
    → Allocated z (grown h (tag_size z + n) content) (length h.memory) request
grown-Allocated z h n request content a e sized room =
    let x : Option Block = some (record { marked = false; content = content }) in
    let old = total_size-append z h.classes h.memory x h.alloc_list a.listed in
    let new : size_of_block z h.classes (block_at (h.memory ++ (x ∷ [])) (length h.memory))
        ≡ tag_size z + n =
      ap (size_of_block z h.classes) (block_at-last h.memory x)
      ∙ ap (λ s. tag_size z + or_zero z h.classes s) sized in
    let before = a.accounted in
    record {
      account = record {
        distinct = (
          λ y.
              let (b, at) = a.listed (length h.memory) y in
              absurd (let clash = sym (block_at-length h.memory) ∙ at in ground arith),
          a.distinct,
        );
        listed = λ p y. elim (Memᴰ.cases_cons y) [
          | inl e ↦
              subst (IsBlock (h.memory ++ (x ∷ []))) (sym e)
                (record { marked = false; content = content }, block_at-last h.memory x)
          | inr y' ↦ let (b, at) = a.listed p y' in (b, block_at-append h.memory x p b at)
        ];
        accounted = omega arith;
        bounded = room;
      };
      content = content;
      as_written = e;
      new_block = block_at-last h.memory x;
      listed_new = Memᴰ.head refl;
    }

-- `alloc_raw` either refuses, for lack of space, or adds the block.
alloc_raw-cases :
    (h : Heap) (bytes : ℕ) (content : Content)
    → 0 < bytes
    → ((alloc_raw h bytes content ≡ none) × (h.size < h.used_mem + bytes))
      ⊎ ((alloc_raw h bytes content ≡ some (length h.memory, grown h bytes content))
          × (h.used_mem + bytes ≤ h.size))
unfolding alloc_raw
alloc_raw-cases h bytes content pos = elim (Bool-cases (ltb (h.size - h.used_mem) bytes)) [
  | inl full ↦ inl (rw full, ground arith)
  | inr room ↦ inr (rw room, ground arith)
]

module _ (z : Sizes) (tagged : 0 < tag_size z) where
  alloc_block-cases :
      (h : Heap) (request : Request) (n : ℕ)
      → IsAccounted z h
      → Agrees z request
      → requested_size z h.classes request ≡ some n
      → ((alloc_block z h request ≡ ok none) × (h.size < h.used_mem + (tag_size z + n)))
        ⊎ ((p : ℕ) × (h' : Heap) × (alloc_block z h request ≡ ok (some (p, h')))
            × Allocated z h' p request)
  unfolding alloc_block
  alloc_block-cases h request n a agrees asked =
      let (content, e', sized) = requested_size-Sized z h.classes request n agrees asked in
      elim (alloc_raw-cases h (tag_size z + n) content (omega arith)) [
        | inl (e, full) ↦ inl (rw (asked, e', e), full)
        | inr (e, room) ↦ inr (
          length h.memory,
          grown h (tag_size z + n) content,
          rw (asked, e', e),
          grown-Allocated z h n request content a e' sized room,
        )
      ]

  IsHeap-IsAccounted : (h : Heap) → IsHeap z h → h.used_mem ≤ h.size → IsAccounted z h
  IsHeap-IsAccounted h w room = record {
    distinct = w.distinct;
    listed = λ p x. let (b, at, off) = w.listed p x in (b, at);
    accounted = w.accounted;
    bounded = room;
  }

  Collected-IsAccounted :
      (h h' : Heap) → Collected z h h' → h'.size ≡ h.size → h.used_mem ≤ h.size → IsAccounted z h'
  Collected-IsAccounted h h' c size room = record {
    distinct = c.distinct;
    listed = λ p x. let (b, b', at, at', off, points, size') = c.kept p x in (b', at');
    accounted = c.accounted;
    bounded = (let l = c.less in omega arith);
  }

  -- the second attempt, after a collection
  retry_alloc-cases :
      (h : Heap) (request : Request) (n : ℕ)
      → IsHeap z h
      → h.used_mem ≤ h.size
      → Agrees z request
      → requested_size z h.classes request ≡ some n
      → (h1 : Heap) × Collected z h h1
        × (h1.size ≡ h.size)
        × (((retry_alloc z h request none ≡ panic) × (h.size < h1.used_mem + (tag_size z + n)))
            ⊎ ((p : ℕ) × (h' : Heap) × (retry_alloc z h request none ≡ ok (p, h'))
                × Allocated z h' p request))
  unfolding retry_alloc
  retry_alloc-cases h request n w room agrees sized =
      let (h1, e, c, classes, stack, size) = gc-Collected z h w in
      let sized1 : requested_size z h1.classes request ≡ some n =
        ap (λ cs. requested_size z cs request) classes ∙ sized in
      (
        h1,
        c,
        size,
        elim (alloc_block-cases h1 request n (Collected-IsAccounted h h1 c size room) agrees
            sized1) [
              | inl (again, full) ↦ inl (rw (e, again), omega arith)
              | inr (p, h', again, new) ↦ inr (p, h', rw (e, again), new)
            ],
      )

-- On a well-formed heap within its size, where a tag takes space, an allocation of anything but an f64, of a size that is
-- defined, and of an `ObjectDataPtr` only if it takes one aligned word: `alloc_or_gc` either returns a listed block that
-- holds what was to be written, in a heap whose used memory is the size of its listed blocks, by the sizes that the collector
-- computes, and no more than the heap's size; or it panics, and then the blocks that a collection leaves and
-- the new one do not fit in the heap together.
pub alloc_or_gc-bounded :
    (z : Sizes) (h : Heap) (request : Request) (n : ℕ)
    → Agrees z request
    → 0 < tag_size z
    → IsHeap z h
    → h.used_mem ≤ h.size
    → requested_size z h.classes request ≡ some n
    → ((p : ℕ) × (h' : Heap) × (alloc_or_gc z h request ≡ ok (p, h')) × Allocated z h' p request)
      ⊎ ((h1 : Heap) × Collected z h h1
          × (alloc_or_gc z h request ≡ panic)
          × (h.size < h1.used_mem + (tag_size z + n)))
unfolding alloc_or_gc retry_alloc
alloc_or_gc-bounded z h request n agrees tagged w room sized =
    elim (alloc_block-cases z tagged h request n (IsHeap-IsAccounted z tagged h w room) agrees
      sized) [
        | inr (p, h', e, new) ↦ inl (p, h', rw e, new)
        | inl (e, full) ↦
            let (h1, c, size, outcome) =
              retry_alloc-cases z tagged h request n w room agrees sized in
            elim outcome [
              | inl (fails, full') ↦ inr (h1, c, rw e fails, full')
              | inr (p, h', gives, new) ↦ inl (p, h', rw e gives, new)
            ]
      ]
