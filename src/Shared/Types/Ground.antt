-- ===== src/Shared/Types/Ground.antt =====
-- Which types `is_ground` accepts.
use jankscripten.Prelude.{subst, sym, ℕ, zero, suc, ◌≡◌, refl, ◌↔◌, true, arith}
use jankscripten.Shared.Types.{
  JankyType, JankyTypes, nil, cons, any, function, arity, repeat, is_any, all_any, is_ground,
  ground_function,
}

is_any→eq : (t : JankyType) → is_any t ≡ true → t ≡ any
unfolding is_any
is_any→eq any h = refl
is_any→eq _ h = absurd (ground arith)

all_any→eq : (ts : JankyTypes) → all_any ts ≡ true → ts ≡ repeat (arity ts) any
unfolding all_any
all_any→eq nil h = refl
all_any→eq (cons t ts) h = ground (arith, is_any→eq t, all_any→eq ts)

pub all_any-repeat : (n : ℕ) → all_any (repeat n any) ≡ true
unfolding all_any is_any
all_any-repeat zero = refl
all_any-repeat (suc n) = all_any-repeat n

pub ground_function-is_ground : (n : ℕ) → is_ground (ground_function n) ≡ true
unfolding is_ground ground_function is_any
ground_function-is_ground n = all_any-repeat n

-- A function type is ground exactly when it is the ground function of its own arity.
pub is_ground-function :
    (args : JankyTypes) (ret : JankyType)
    → (is_ground (function args ret) ≡ true) ↔ (function args ret ≡ ground_function (arity args))
unfolding is_ground ground_function
is_ground-function args ret = (
  (λ h. ground (arith, is_any→eq ret, all_any→eq args)),
  (λ e. subst (λ t. is_ground t ≡ true) (sym e) (ground_function-is_ground (arity args))),
)
