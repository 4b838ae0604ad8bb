-- ===== src/Wrapper/Items.antt =====
-- What `insert_item_tail` does to the list and to the semaphore.
use team_otw_os_labs.Base.{ℕ, ◌<◌, ◌≡◌, ◌≢◌, List, [], ◌∷◌, ◌++◌, ok, ◌∙◌}
use team_otw_os_labs.Threads.{Semaphores}
use team_otw_os_labs.LinkedList.{Elem, Ends, Heap, put, list_elem_init}
use team_otw_os_labs.LinkedList.Represents.{
  Node, Misses, Represents, Links-put, put-here, write-at, nonzero,
}
use team_otw_os_labs.LinkedList.Insert.{list_insert_tail_lem}
use team_otw_os_labs.Wrapper.{Wrapper, insert_item_tail}

Represents-put :
    (lst : Ends) (h : Heap) (a : ℕ) (e : Elem) (xs : List Node)
    → Misses a xs
    → Represents lst h xs
    → Represents lst (put h a e) xs
Represents-put lst h a e xs m r = record {
  starts = r.starts;
  ends = r.ends;
  linked = Links-put h a e 0 xs 0 m r.linked;
  distinct = r.distinct;
}

-- Where the semaphore is free and `malloc` gives an address that is not in the list,
-- `insert_item_tail` puts the datum behind all others and leaves the semaphore's value as it was.
pub insert_item_tail_lem :
    (api : Semaphores) (w : Wrapper api) (h : Heap) (xs : List Node) (fresh datum : ℕ)
    → Represents w.data_list h xs
    → Misses fresh xs
    → fresh ≢ 0
    → 0 < api.value w.sem
    → (w1 : Wrapper api) × (h1 : Heap) × (insert_item_tail api fresh datum w h ≡ ok (w1, h1))
      × Represents w1.data_list h1 (xs ++ (fresh, datum) ∷ [])
      × (api.value w1.sem ≡ api.value w.sem)
unfolding insert_item_tail list_elem_init
insert_item_tail_lem api w h xs fresh datum r m real free =
    let blank : Elem = record { prev = 0; next = 0; datum = 0 } in
    let e : Elem = record { prev = 0; next = 0; datum = datum } in
    let h1 = put h fresh blank in
    let h2 = put h1 fresh e in
    let (lst, h3, run, held) =
      list_insert_tail_lem w.data_list h2 fresh e real (put-here h1 fresh e) xs
        (Represents-put w.data_list h1 fresh e xs m
          (Represents-put w.data_list h fresh blank xs m r))
        m in
    (
      record { data_list = lst; sem = api.sem_post (api.sem_wait w.sem) },
      h3,
      rw (nonzero fresh real, write-at h1 fresh blank e (put-here h fresh blank), run),
      held,
      api.value_post (api.sem_wait w.sem) ∙ api.value_wait w.sem free,
    )
