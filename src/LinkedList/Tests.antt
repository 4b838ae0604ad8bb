-- ===== src/LinkedList/Tests.antt =====
-- Examples: a list of two elements at the addresses 10 and 20, and an element at 30.
use team_otw_os_labs.Base.{◌≡◌, ◌==◌, List, [], ◌∷◌, none, some, ok, refl, arith, if◌then◌else◌}
use team_otw_os_labs.LinkedList.{
  Elem, Ends, Heap, list_insert_head, list_insert_tail, list_remove_elem,
}
use team_otw_os_labs.LinkedList.Represents.{Node, Represents}
use team_otw_os_labs.LinkedList.Remove.{list_remove_elem_lem}
use team_otw_os_labs.LinkedList.Insert.{list_insert_lem}

abbrev two_nodes : List Node
two_nodes = (10, 1) ∷ (20, 2) ∷ []

abbrev two_ends : Ends
two_ends = record { head = 10; tail = 20 }

abbrev spare : Elem
spare = record { prev = 7; next = 8; datum = 3 }

abbrev two_heap : Heap
two_heap a =
    if a == 10
    then some (record { prev = 0; next = 20; datum = 1 })
    else if a == 20
    then some (record { prev = 10; next = 0; datum = 2 })
    else if a == 30
    then some spare
    else none

two-Represents : Represents two_ends two_heap two_nodes
two-Represents = record {
  starts = refl;
  ends = refl;
  linked = (λ e. omega arith, refl, (λ e. omega arith, refl, tt));
  distinct = ((λ e. omega arith, tt), (tt, tt));
}

list_insert_lem_example :
    ((lst1 : Ends) × (h1 : Heap) × (list_insert_head two_ends 30 two_heap ≡ ok (lst1, h1))
      × Represents lst1 h1 ((30, 3) ∷ (10, 1) ∷ (20, 2) ∷ []))
    × ((lst1 : Ends) × (h1 : Heap) × (list_insert_tail two_ends 30 two_heap ≡ ok (lst1, h1))
        × Represents lst1 h1 ((10, 1) ∷ (20, 2) ∷ (30, 3) ∷ []))
list_insert_lem_example =
    list_insert_lem two_ends two_heap 30 spare (λ e. omega arith) refl two_nodes two-Represents
      (λ e. omega arith, (λ e. omega arith, tt))

list_remove_elem_lem_example :
    (lst1 : Ends) × (h1 : Heap) × (list_remove_elem two_ends 10 two_heap ≡ ok (lst1, h1))
    × Represents lst1 h1 ((20, 2) ∷ [])
list_remove_elem_lem_example =
    list_remove_elem_lem two_ends two_heap [] (10, 1) ((20, 2) ∷ []) two-Represents
