-- ===== src/Shared/Coercions/Typing.antt =====
-- The typing of coercions that the comments of libjankscripten/src/shared/coercions.rs give: a
-- coercion of functions is contravariant in the arguments.
use jankscripten.Shared.Types.{JankyType, JankyTypes, any, int, float, function}
use jankscripten.Shared.Coercions.{Coercion, Coercions}

mutual
  pub data Coerces : Coercion → JankyType → JankyType → Type 0 where
    tag : {t : JankyType} → Coerces (Coercion.tag t) t any
    untag : {t : JankyType} → Coerces (Coercion.untag t) any t
    int_to_float : Coerces Coercion.int_to_float int float
    float_to_int : Coerces Coercion.float_to_int float int
    fun :
        {cargs : Coercions} {cret : Coercion} {ss ts : JankyTypes} {s t : JankyType}
        → CoercesArgs cargs ts ss
        → Coerces cret s t
        → Coerces (Coercion.fun cargs cret) (function ss s) (function ts t)
    id : {t : JankyType} → Coerces (Coercion.id t) t t
    seq :
        {c1 c2 : Coercion} {s u t : JankyType}
        → Coerces c1 s u
        → Coerces c2 u t
        → Coerces (Coercion.seq c1 c2) s t
    meta : {s t : JankyType} → Coerces (Coercion.meta s t) s t

  pub data CoercesArgs : Coercions → JankyTypes → JankyTypes → Type 0 where
    nil : CoercesArgs Coercions.nil JankyTypes.nil JankyTypes.nil
    cons :
        {c : Coercion} {cs : Coercions} {s t : JankyType} {ss ts : JankyTypes}
        → Coerces c s t
        → CoercesArgs cs ss ts
        → CoercesArgs (Coercions.cons c cs) (JankyTypes.cons s ss) (JankyTypes.cons t ts)
