-- ===== src/Wrapper/Tests.antt =====
-- An example: an item goes into an empty list.
use team_otw_os_labs.Base.{◌≡◌, [], ◌∷◌, ok, refl, none, arith}
use team_otw_os_labs.Threads.Plain.{plain}
use team_otw_os_labs.LinkedList.{Heap}
use team_otw_os_labs.LinkedList.Represents.{Represents}
use team_otw_os_labs.Wrapper.{Wrapper, insert_item_tail}
use team_otw_os_labs.Wrapper.Items.{insert_item_tail_lem}

abbrev no_items : Wrapper plain
no_items = record { data_list = record { head = 0; tail = 0 }; sem = 1 }

abbrev nothing : Heap
nothing a = none

insert_item_tail_lem_example :
    (w1 : Wrapper plain) × (h1 : Heap) × (insert_item_tail plain 10 5 no_items nothing
      ≡ ok (w1, h1))
    × Represents w1.data_list h1 ((10, 5) ∷ [])
    × (w1.sem ≡ 1)
insert_item_tail_lem_example =
    insert_item_tail_lem plain no_items nothing [] 10 5
      (record { starts = refl; ends = refl; linked = tt; distinct = tt }) tt (λ e. omega arith)
      (omega arith)
