-- ===== src/LinkedList.antt =====
-- totw_p4/list.c and list.h: the doubly linked list of the scheduler.
pub mod Represents
pub mod Insert
pub mod Remove
mod Tests
use team_otw_os_labs.Base.{
  ℕ, zero, suc, Bool, not, ◌==◌, if◌then◌else◌, Option, none, some, Run, ok, fault, out_of_fuel,
  ◌>>=◌, add_int,
}

-- `list_elem_t`. An address is a number, NULL is 0, and `datum` is an address too.
pub record Elem : Type 0 where
  pub prev : ℕ
  pub next : ℕ
  pub datum : ℕ

-- `list_t`
pub record Ends : Type 0 where
  pub head : ℕ
  pub tail : ℕ

-- What is allocated at an address.
abbrev pub Heap : Type 0
Heap = ℕ → Option Elem

unfoldable pub read : Heap → ℕ → Run Elem
read h a = elim (h a) [ none ↦ fault | some e ↦ ok e ]

unfoldable pub put : Heap → ℕ → Elem → Heap
put h a e b = if b == a then some e else h b

unfoldable pub write : Heap → ℕ → Elem → Run Heap
unfolding put
write h a e = elim (h a) [ none ↦ fault | some _ ↦ ok (put h a e) ]

unfoldable pub list_init : Ends → Ends
list_init lst = record { head = 0; tail = 0 }

-- `for (elt = lst->head; elt != NULL; elt = elt->next) count++;`
unfoldable pub size_loop : (fuel : ℕ) → ℕ → (count : ℕ) → Heap → Run ℕ
unfolding read
size_loop zero elt count h = out_of_fuel
size_loop (suc fuel) elt count h =
    if elt == 0 then ok count else (read h elt >>= λ e. size_loop fuel e.next (add_int count 1) h)

unfoldable pub list_size : (fuel : ℕ) → Ends → Heap → Run ℕ
unfolding size_loop
list_size fuel lst h = size_loop fuel lst.head 0 h

unfoldable pub list_elem_init : ℕ → (datum : ℕ) → Heap → Run Heap
unfolding write
list_elem_init elt datum h =
    if not (elt == 0) then write h elt (record { prev = 0; next = 0; datum = datum }) else ok h

-- The second test of `lst->head`, in the else branch, always holds.
unfoldable pub list_insert_head : Ends → ℕ → Heap → Run (Ends × Heap)
unfolding read write
list_insert_head lst elt h =
    if lst.head == 0
    then (do
      e ← read h elt
      h1 ← write h elt (record e { prev = 0; next = 0 })
      ok (record { head = elt; tail = elt }, h1))
    else (do
      e ← read h elt
      h1 ← write h elt (record e { prev = 0; next = lst.head })
      first ← read h1 lst.head
      h2 ← write h1 lst.head (record first { prev = elt })
      ok (record lst { head = elt }, h2))

-- The store through `lst->tail` comes before `elt->next` is cleared.
unfoldable pub list_insert_tail : Ends → ℕ → Heap → Run (Ends × Heap)
unfolding read write
list_insert_tail lst elt h =
    if lst.tail == 0
    then (do
      e ← read h elt
      h1 ← write h elt (record e { prev = 0; next = 0 })
      ok (record { head = elt; tail = elt }, h1))
    else (do
      e ← read h elt
      h1 ← write h elt (record e { prev = lst.tail })
      last ← read h1 lst.tail
      h2 ← write h1 lst.tail (record last { next = elt })
      e2 ← read h2 elt
      h3 ← write h2 elt (record e2 { next = 0 })
      ok (record lst { tail = elt }, h3))

unfoldable pub list_get_head : Ends → ℕ
list_get_head lst = lst.head

unfoldable pub list_get_tail : Ends → ℕ
list_get_tail lst = lst.tail

-- The two halves of `list_remove_elem`, and the last line.
unfoldable pub unlink_prev : Ends → Elem → ℕ → Heap → Run (Ends × Heap)
unfolding read write
unlink_prev lst e elt h =
    if not (e.prev == 0)
    then (do p ← read h e.prev; h1 ← write h e.prev (record p { next = e.next }); ok (lst, h1))
    else ok (if lst.head == elt then record lst { head = e.next } else lst, h)

unfoldable pub unlink_next : Ends → ℕ → Heap → Run (Ends × Heap)
unfolding read write
unlink_next lst elt h = do
  e ← read h elt
  if not (e.next == 0)
      then (do n ← read h e.next; h1 ← write h e.next (record n { prev = e.prev }); ok (lst, h1))
      else ok (if lst.tail == elt then record lst { tail = e.prev } else lst, h)

unfoldable pub list_remove_elem : Ends → ℕ → Heap → Run (Ends × Heap)
unfolding unlink_prev unlink_next read write
list_remove_elem lst elt h = do
  e ← read h elt
  (lst1, h1) ← unlink_prev lst e elt h
  (lst2, h2) ← unlink_next lst1 elt h1
  e2 ← read h2 elt
  h3 ← write h2 elt (record e2 { prev = 0; next = 0 })
  ok (lst2, h3)

-- `fn` may change the heap; the next element is read after the call.
unfoldable pub foreach_loop : (fuel : ℕ) → (ℕ → Heap → Run Heap) → ℕ → Heap → Run Heap
unfolding read
foreach_loop zero fn elt h = out_of_fuel
foreach_loop (suc fuel) fn elt h =
    if elt == 0
    then ok h
    else (fn elt h >>= λ h1. read h1 elt >>= λ e. foreach_loop fuel fn e.next h1)

unfoldable pub list_foreach : (fuel : ℕ) → Ends → (ℕ → Heap → Run Heap) → Heap → Run Heap
unfolding foreach_loop
list_foreach fuel lst fn h = foreach_loop fuel fn lst.head h
