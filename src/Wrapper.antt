-- ===== src/Wrapper.antt =====
-- totw_p4/sched_impl.c: the lists of the scheduler, each behind its own semaphore.
pub mod Items
mod Tests
use team_otw_os_labs.Base.{
  ℕ, zero, suc, Bool, true, false, not, ◌==◌, if◌then◌else◌, Option, none, some, Run, ok,
  out_of_fuel, ◌>>=◌,
}
use team_otw_os_labs.Threads.{Semaphores}
use team_otw_os_labs.LinkedList.{
  Elem, Ends, Heap, read, put, list_size, list_elem_init, list_insert_head, list_insert_tail,
  list_get_head, list_get_tail, list_remove_elem,
}

-- `free(elt)`
unfoldable pub release_elem : Heap → ℕ → Heap
release_elem h a b = if b == a then none else h b

-- `while(elt != NULL) if(elt->datum == datum) ... else elt = elt->next;`: the first element with
-- the datum.
unfoldable pub find_loop : (fuel : ℕ) → ℕ → (datum : ℕ) → Heap → Run (Option ℕ)
unfolding read
find_loop zero elt datum h = out_of_fuel
find_loop (suc fuel) elt datum h =
    if elt == 0
    then ok none
    else (read h elt >>= λ e.
        if e.datum == datum then ok (some elt) else find_loop fuel e.next datum h)

module _ (api : Semaphores) where
  open api use {Sem, value, sem_init, sem_wait, sem_post}

  -- `list_wrap_t`
  pub record Wrapper : Type 0 where
    pub data_list : Ends
    pub sem : Sem

  unfoldable pub create_wrapper : Wrapper
  create_wrapper = record { data_list = record { head = 0; tail = 0 }; sem = sem_init 1 }

  -- `fresh` is the address that `malloc` returns.
  unfoldable pub insert_item :
      (Ends → ℕ → Heap → Run (Ends × Heap))
      → (fresh datum : ℕ) → Wrapper
      → Heap
      → Run (Wrapper × Heap)
  insert_item insert fresh datum w h = do
    let s = sem_wait w.sem
    h1 ← list_elem_init fresh datum (put h fresh (record { prev = 0; next = 0; datum = 0 }))
    (l, h2) ← insert w.data_list fresh h1
    ok (record { data_list = l; sem = sem_post s }, h2)

  unfoldable pub insert_item_head : (fresh datum : ℕ) → Wrapper → Heap → Run (Wrapper × Heap)
  unfolding insert_item
  insert_item_head = insert_item list_insert_head

  unfoldable pub insert_item_tail : (fresh datum : ℕ) → Wrapper → Heap → Run (Wrapper × Heap)
  unfolding insert_item
  insert_item_tail = insert_item list_insert_tail

  abbrev pub pass : Wrapper → Wrapper
  pass w = record w { sem = sem_post (sem_wait w.sem) }

  unfoldable pub peek_item_head : Wrapper → ℕ × Wrapper
  peek_item_head w = (list_get_head w.data_list, pass w)

  unfoldable pub peek_item_tail : Wrapper → ℕ × Wrapper
  peek_item_tail w = (list_get_tail w.data_list, pass w)

  unfoldable pub elt_in_list : (fuel datum : ℕ) → Wrapper → Heap → Run (Bool × Wrapper)
  unfolding find_loop
  elt_in_list fuel datum w h = find_loop fuel (list_get_head w.data_list) datum h >>= λ found.
      ok (elim found [ none ↦ false | some _ ↦ true ], pass w)

  -- NULL is `none`.
  unfoldable pub find_in_list : (fuel datum : ℕ) → Wrapper → Heap → Run (Option ℕ × Wrapper)
  unfolding find_loop
  find_in_list fuel datum w h =
      find_loop fuel (list_get_head w.data_list) datum h >>= λ found. ok (found, pass w)

  unfoldable pub remove_item : (fuel datum : ℕ) → Wrapper → Heap → Run (Wrapper × Heap)
  unfolding find_loop release_elem
  remove_item fuel datum w h = find_loop fuel (list_get_head w.data_list) datum h >>= λ found.
      elim found [
        | none ↦ ok (pass w, h)
        | some elt ↦ (do
          (l, h1) ← list_remove_elem w.data_list elt h
          ok (pass (record w { data_list = l }), release_elem h1 elt))
      ]

  unfoldable pub wrapper_size : (fuel : ℕ) → Wrapper → Heap → Run (ℕ × Wrapper)
  wrapper_size fuel w h = list_size fuel w.data_list h >>= λ n. ok (n, pass w)
