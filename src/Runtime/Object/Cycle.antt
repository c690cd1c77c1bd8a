-- ===== src/Runtime/Object/Cycle.antt =====
-- Lookup along a chain of prototypes that is a cycle.
use jankscripten.Prelude.{ℕ, zero, suc, String, ◌≡◌, refl, Option, none, some, List, get_elem?, err}
use jankscripten.Runtime.ClassList.{Class, find, lookup, get_class}
use jankscripten.Runtime.Object.{
  AnyEnum, Cell, Heap, out_of_fuel, data_of_object, match_object, get_from, get_proto, get_found,
  get,
}
use jankscripten.Runtime.Object.Cells.{data_at-eq, read_at-eq}
use jankscripten.Runtime.Object.Insert.{IsObject}

match_object-eq :
    (h : Heap) (o p : ℕ)
    → get_elem? h.cells o ≡ some (Cell.object_cell p)
    → match_object h (AnyEnum.ptr o) ≡ some p
unfolding match_object data_of_object
match_object-eq h o p e = rw e

-- On an object that is its own prototype, the lookup of a property that the object does not have never ends,
-- whatever the fuel.
pub get-out_of_fuel :
    (n : ℕ) (h : Heap) (p o : ℕ) (c : Class) (fields : List (Option AnyEnum)) (name : String)
    (k : ℕ)
    → IsObject h p c fields
    → find c.offsets name ≡ none
    → find c.offsets "__proto__" ≡ some k
    → get_elem? fields k ≡ some (some (AnyEnum.ptr o))
    → get_elem? h.cells o ≡ some (Cell.object_cell p)
    → get n h p name none ≡ err out_of_fuel
unfolding get get_found get_proto get_from lookup get_class
get-out_of_fuel zero h p o c fields name k object missing proto field self = refl
get-out_of_fuel (suc n) h p o c fields name k object missing proto field self = rw (
  data_at-eq h p object.tag fields object.cell,
  object.class,
  missing,
  proto,
  read_at-eq h p object.tag k fields (some (AnyEnum.ptr o)) object.cell field,
  match_object-eq h o p self,
  get-out_of_fuel n h p o c fields name k object missing proto field self,
)
