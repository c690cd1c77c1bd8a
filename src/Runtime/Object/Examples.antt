-- ===== src/Runtime/Object/Examples.antt =====
-- Objects at concrete inputs.
use jankscripten.Prelude.{
  ◌^◌, ◌<◌, ◌≡◌, refl, sym, subst, ◌∙◌, ◌+◌, ◌↔◌, none, some, [], ◌∷◌, arith, length, err,
}
use jankscripten.Prelude.{some-inj}
use jankscripten.Shared.Ident.{String-discrete}
use jankscripten.Runtime.ClassList.{
  Class, ClassList, new_list, empty_class, transition, transition_from, lookup_transition, follow,
  branch, new_class_type, find,
}
use jankscripten.Runtime.ClassList.Tree.{IsTree}
use jankscripten.Runtime.ClassList.Transition.{transition-Grows, new_list-IsTree}
use jankscripten.Runtime.Object.{get, out_of_fuel}
use jankscripten.Runtime.Object.Cycle.{get-out_of_fuel}
use jankscripten.Runtime.Object.{AnyEnum, Cell, Heap, Stop, insert_data}
use jankscripten.Runtime.Object.Insert.{
  IsObject, Inserted, insert_data-Inserted, insert_data-collects,
}
use jankscripten.Runtime.Object.Lookup.{Reads, insert_data-get}

abbrev one_object : Heap
one_object = record {
  classes = new_list;
  cells = Cell.data_cell 0 [] ∷ Cell.object_cell 0 ∷ [];
  size = 20;
  used_mem = 8;
  tag_size = 4;
  field_size = 8;
}

-- the same with no room for a field
abbrev full_object : Heap
full_object = record one_object { size = 19 }

full_object-IsObject : IsObject full_object 0 empty_class []
unfolding new_list
full_object-IsObject = record {
  tag = 0;
  cell = refl;
  class = refl;
  sized = refl;
  tree = new_list-IsTree;
}

one_object-IsObject : IsObject one_object 0 empty_class []
unfolding new_list
one_object-IsObject = record {
  tag = 0;
  cell = refl;
  class = refl;
  sized = refl;
  tree = new_list-IsTree;
}

few_classes : length one_object.classes < 2 ^ 16
unfolding new_list
few_classes = omega arith

insert_data-Inserted_example : Inserted one_object 0 empty_class [] "x" (AnyEnum.i32 7)
insert_data-Inserted_example =
    insert_data-Inserted one_object 0 empty_class [] "x" (AnyEnum.i32 7) one_object-IsObject
      few_classes (λ _. omega arith)

insert_data-get_example : Reads one_object 0 empty_class [] "x" (AnyEnum.i32 7)
insert_data-get_example =
    insert_data-get one_object 0 empty_class [] "x" (AnyEnum.i32 7) one_object-IsObject few_classes
      (λ _. omega arith)

insert_data-collects_example :
    (insert_data full_object 0 "x" (AnyEnum.i32 7) none ≡ err Stop.collects)
    ↔ ((find [] "x" ≡ none) × (19 < 8 + 12))
insert_data-collects_example =
    insert_data-collects full_object 0 empty_class [] "x" (AnyEnum.i32 7) full_object-IsObject
      few_classes (omega arith)

abbrev proto_class : Class
proto_class = record { size = 1; offsets = ("__proto__", 0) ∷ []; transitions = [] }

abbrev with_proto : ClassList
with_proto =
    (record { size = 0; offsets = []; transitions = ("__proto__", 1) ∷ [] }) ∷ proto_class ∷ []

new_list-proto : transition new_list 0 "__proto__" ≡ some (with_proto, 1)
unfolding transition new_list transition_from lookup_transition follow branch new_class_type find
new_list-proto = refl

with_proto-IsTree : IsTree with_proto
unfolding new_list
with_proto-IsTree =
    let (later, tag, moved, grows) =
      transition-Grows new_list 0 "__proto__" new_list-IsTree few_classes (omega arith) in
    subst (λ (l, t). IsTree l) (some-inj (sym moved ∙ new_list-proto)) grows.tree

-- an object that is its own prototype
abbrev own_prototype : Heap
own_prototype = record {
  classes = with_proto;
  cells = Cell.data_cell 1 (some (AnyEnum.ptr 1) ∷ []) ∷ Cell.object_cell 0 ∷ [];
  size = 16;
  used_mem = 16;
  tag_size = 4;
  field_size = 8;
}

own_prototype-IsObject : IsObject own_prototype 0 proto_class (some (AnyEnum.ptr 1) ∷ [])
own_prototype-IsObject = record {
  tag = 1;
  cell = refl;
  class = refl;
  sized = refl;
  tree = with_proto-IsTree;
}

x-missing : find proto_class.offsets "x" ≡ none
unfolding find String-discrete
x-missing = refl

proto-found : find proto_class.offsets "__proto__" ≡ some 0
unfolding find String-discrete
proto-found = refl

get-out_of_fuel_example : get 100 own_prototype 0 "x" none ≡ err out_of_fuel
get-out_of_fuel_example =
    get-out_of_fuel 100 own_prototype 0 1 proto_class (some (AnyEnum.ptr 1) ∷ []) "x" 0
      own_prototype-IsObject x-missing proto-found refl refl
