-- ===== src/Janky/CheckCoercion.antt =====
-- `type_check_coercion` of libjankscripten/src/jankyscript/type_checking.rs.
pub mod FirstOrder
pub mod Swapped
pub mod Examples
use jankscripten.Prelude.{
  ℕ, zero, suc, ◌+◌, ◌-◌, ◌*◌, ◌/◌, ◌%◌, ◌^◌, ◌≤◌, ◌<◌, max, min, String, ◌≡◌, refl, sym, ap, ap₂,
  subst, ◌∙◌, ◌≢◌, ◌↔◌, ◌⊎◌, inl, inr, ite, if_pos, if_neg, Bool, true, false, not, ◌&&◌, ◌||◌,
  Option, none, some, List, [], ◌∷◌, ◌++◌, map, arith, str_eq, dec_lt, ℕ_discrete, ltb, leb, ◌==◌,
  if◌then◌else◌, Bool-cases, Option-cases, length, get_elem?, set, length-append, take, drop,
  replicate, Result, ok, err, panic, ◌>>=◌, ◌>>◌, ok_or, unwrap, >>=-ok,
}
use jankscripten.Shared.Ident.{Ident}
use jankscripten.Shared.Types.{JankyType, JankyTypes, any, int, float, function, JankyType-discrete}
use jankscripten.Shared.Coercions.{Coercion, Coercions}

-- The errors of the checker; messages and positions are left out.
pub data TypeCheckingError : Type 0 where
  type_mismatch : JankyType → JankyType → TypeCheckingError
  expected_indexable : JankyType → TypeCheckingError
  expected_function : JankyType → TypeCheckingError
  unexpected_return : JankyType → TypeCheckingError
  no_such_variable : Ident → TypeCheckingError
  expected_box : JankyType → TypeCheckingError

unfoldable pub ensure : JankyType → JankyType → Result TypeCheckingError JankyType
ensure expected got =
    ite (JankyType-discrete expected got) (ok got) (err (type_mismatch expected got))

-- The result is the pair of the type from and the type to which the coercion goes. The loop over the
-- arguments of a function coercion collects both lists.
unfoldable mutual
  pub type_check_coercion : Coercion → Result TypeCheckingError (JankyType × JankyType)
  type_check_coercion (Coercion.meta t1 t2) = ok (t1, t2)
  type_check_coercion Coercion.float_to_int = ok (float, int)
  type_check_coercion Coercion.int_to_float = ok (int, float)
  type_check_coercion (Coercion.tag from_type) = ok (from_type, any)
  type_check_coercion (Coercion.untag to_type) = ok (any, to_type)
  type_check_coercion (Coercion.fun args_to_type ret_to_type) =
      type_check_args args_to_type >>= λ (args_from, args_to).
      type_check_coercion ret_to_type >>= λ (ret_from, ret_to).
      ok (function args_from ret_from, function args_to ret_to)
  type_check_coercion (Coercion.id to_type) = ok (to_type, to_type)
  type_check_coercion (Coercion.seq t1 t2) = type_check_coercion t2 >>= λ (t2_from, t2_to).
      type_check_coercion t1 >>= λ (t1_from, t1_to).
      ensure t1_to t2_from >>= λ _. ok (t1_from, t2_to)

  pub type_check_args : Coercions → Result TypeCheckingError (JankyTypes × JankyTypes)
  type_check_args Coercions.nil = ok (JankyTypes.nil, JankyTypes.nil)
  type_check_args (Coercions.cons c cs) = type_check_coercion c >>= λ (from, to).
      type_check_args cs >>= λ (froms, tos). ok (JankyTypes.cons from froms, JankyTypes.cons to tos)
