-- ===== src/NotWasm/Types.antt =====
-- The types of NotWasm (libjankscripten/src/notwasm/syntax.rs) and what the other stages ask of them.
use jankscripten.Prelude.{Bool, true, false, Option, none, some, List, [], ◌∷◌}

mutual
  pub data NotWasmType : Type 0 where
    any : NotWasmType
    i32 : NotWasmType
    f64 : NotWasmType
    bool : NotWasmType
    string : NotWasmType
    array : NotWasmType
    dyn_object : NotWasmType
    fn : FnType → NotWasmType
    ht : NotWasmType
    closure : FnType → NotWasmType
    ref : NotWasmType → NotWasmType
    env : NotWasmType
    ptr : NotWasmType

  -- `args` and the optional `result`
  pub data FnType : Type 0 where
    fn_type : NotWasmTypes → OptType → FnType

  pub data NotWasmTypes : Type 0 where
    nil : NotWasmTypes
    cons : NotWasmType → NotWasmTypes → NotWasmTypes

  pub data OptType : Type 0 where
    no_type : OptType
    some_type : NotWasmType → OptType

unfoldable pub NotWasmType-discrete : Discrete NotWasmType
NotWasmType-discrete = hlevel

abbrev pub args : FnType → NotWasmTypes
args (fn_type ts r) = ts

abbrev pub result : FnType → OptType
result (fn_type ts r) = r

abbrev pub to_list : NotWasmTypes → List NotWasmType
to_list nil = []
to_list (cons t ts) = t ∷ to_list ts

abbrev pub to_option : OptType → Option NotWasmType
to_option no_type = none
to_option (some_type t) = some t

-- `unwrap_fun` panics on what is no first-order function.
unfoldable pub unwrap_fun : NotWasmType → Option (List NotWasmType × Option NotWasmType)
unwrap_fun (fn f) = some (to_list (args f), to_option (result f))
unwrap_fun _ = none

-- Which variables of a function the collector has to know of.
unfoldable pub is_gc_root : NotWasmType → Bool
is_gc_root i32 = false
is_gc_root f64 = false
is_gc_root string = true
is_gc_root ht = true
is_gc_root array = true
is_gc_root bool = false
is_gc_root dyn_object = true
is_gc_root (fn _) = false
is_gc_root (closure _) = true
is_gc_root (ref _) = true
is_gc_root any = true
is_gc_root env = true
is_gc_root ptr = true
