-- ===== src/Rope/Iterate.antt =====
-- Ropes hold the values of their parts in order, and iteration yields them.
use jankscripten.Prelude.{
  ℕ, zero, suc, ◌+◌, ◌≤◌, ◌<◌, ◌≡◌, refl, sym, ap, ◌∙◌, some, List, [], ◌∷◌, ◌++◌, arith, ok,
}
use mathlib.Core.List.{append_assoc, append-nil}
use jankscripten.Rope.{Rope, join, next, into_iter, collect}

module _ {ℓ} {T : Type ℓ} where
  abbrev pub to_list : Rope T → List T
  to_list Rope.nil = []
  to_list (Rope.singleton x) = x ∷ []
  to_list (Rope.append lhs rhs) = to_list lhs ++ to_list rhs

  abbrev pub nodes : Rope T → ℕ
  nodes Rope.nil = 0
  nodes (Rope.singleton x) = 1
  nodes (Rope.append lhs rhs) = 1 + nodes lhs + nodes rhs

  -- no `nil` anywhere
  abbrev pub IsSolid : Rope T → Type 0
  IsSolid Rope.nil = ⊥
  IsSolid (Rope.singleton x) = Unit {0}
  IsSolid (Rope.append lhs rhs) = IsSolid lhs × IsSolid rhs

  -- `nil`, or no `nil` anywhere
  abbrev pub IsPacked : Rope T → Type 0
  IsPacked Rope.nil = Unit {0}
  IsPacked r = IsSolid r

  -- Appending yields the values of the first rope and then those of the second, and never hides a `nil` in
  -- the result.
  pub join-to_list :
      (r s : Rope T)
      → IsPacked r
      → IsPacked s
      → (to_list (join r s) ≡ to_list r ++ to_list s) × IsPacked (join r s)
  unfolding join
  join-to_list Rope.nil s p q = (refl, q)
  join-to_list (Rope.singleton x) Rope.nil p q = (refl, p)
  join-to_list (Rope.singleton x) (Rope.singleton y) p q = (refl, (p, q))
  join-to_list (Rope.singleton x) (Rope.append s t) p q = (refl, (p, q))
  join-to_list (Rope.append r u) Rope.nil p q = (sym (append-nil (to_list r ++ to_list u)), p)
  join-to_list (Rope.append r u) (Rope.singleton y) p q = (refl, (p, q))
  join-to_list (Rope.append r u) (Rope.append s t) p q = (refl, (p, q))

  abbrev stacked : List (Rope T) → List T
  stacked [] = []
  stacked (r ∷ rs) = to_list r ++ stacked rs

  abbrev stack_nodes : List (Rope T) → ℕ
  stack_nodes [] = 0
  stack_nodes (r ∷ rs) = nodes r + stack_nodes rs

  abbrev AllSolid : List (Rope T) → Type 0
  AllSolid [] = Unit {0}
  AllSolid (r ∷ rs) = IsSolid r × AllSolid rs

  record Popped (n : ℕ) (stack : List (Rope T)) : Type ℓ where
    item : T
    rest : List (Rope T)
    returned : next n stack ≡ ok (some (item, rest))
    solid : AllSolid rest
    values : stacked stack ≡ item ∷ stacked rest
    smaller : stack_nodes rest < stack_nodes stack

  next-Popped :
      (n : ℕ) (r : Rope T) (rs : List (Rope T))
      → IsSolid r
      → AllSolid rs
      → nodes r + stack_nodes rs ≤ n
      → Popped n (r ∷ rs)
  unfolding next
  next-Popped n Rope.nil rs p ps le = absurd p
  next-Popped zero (Rope.singleton x) rs p ps le = absurd (omega arith)
  next-Popped (suc n) (Rope.singleton x) rs p ps le = record {
    item = x;
    rest = rs;
    returned = refl;
    solid = ps;
    values = refl;
    smaller = omega arith;
  }
  next-Popped zero (Rope.append r s) rs p ps le = absurd (omega arith)
  next-Popped (suc n) (Rope.append r s) rs (p, q) ps le =
      let rest = next-Popped n r (s ∷ rs) p (q, ps) (omega arith) in
      record {
        item = rest.item;
        rest = rest.rest;
        returned = rest.returned;
        solid = rest.solid;
        values = append_assoc (to_list r) (to_list s) (stacked rs) ∙ rest.values;
        smaller = (let le = rest.smaller in omega arith);
      }

  collect-stack :
      (calls fuel : ℕ) (stack : List (Rope T))
      → AllSolid stack
      → stack_nodes stack < calls
      → stack_nodes stack < fuel
      → collect calls fuel stack ≡ ok (stacked stack)
  unfolding collect next
  collect-stack zero fuel stack ps lc lf = absurd (omega arith)
  collect-stack (suc calls) zero stack ps lc lf = absurd (omega arith)
  collect-stack (suc calls) (suc fuel) [] ps lc lf = refl
  collect-stack (suc calls) (suc fuel) (r ∷ rs) (p, ps) lc lf =
      let popped = next-Popped (suc fuel) r rs p ps (omega arith) in
      let smaller = popped.smaller in
      let rest =
        collect-stack calls (suc fuel) popped.rest popped.solid (omega arith) (omega arith) in
      rw (popped.returned, rest, popped.values)

  -- Iterating over a packed rope ends, does not panic and yields its values in order, with more fuel than the
  -- rope has nodes.
  pub collect-into_iter :
      (r : Rope T) (n : ℕ) → IsPacked r → nodes r < n → collect n n (into_iter r) ≡ ok (to_list r)
  unfolding into_iter
  collect-into_iter Rope.nil n p l = collect-stack n n [] tt l l
  collect-into_iter (Rope.singleton x) n p l =
      collect-stack n n (Rope.singleton x ∷ []) (p, tt) (omega arith) (omega arith)
  collect-into_iter (Rope.append r s) n p l =
      collect-stack n n (Rope.append r s ∷ []) (p, tt) (omega arith) (omega arith)
      ∙ ap ok (append-nil (to_list r ++ to_list s))
