-- ===== src/LinkedList/Insert.antt =====
-- `list_insert_head` and `list_insert_tail` on the list of the elements.
use team_otw_os_labs.Base.{
  ℕ, ◌≡◌, ◌≢◌, List, [], ◌∷◌, ◌++◌, some, ok, refl, sym, ◌∙◌, none_last, last, Last-of,
  append_assoc,
}
use team_otw_os_labs.LinkedList.{Elem, Ends, Heap, put, list_insert_head, list_insert_tail}
use team_otw_os_labs.LinkedList.Represents.{
  Node, first_of, last_of, Links, Misses, Distinct, Represents, put-here, put-other, read-at,
  write-at, nonzero, Links-put, last-append, Links-append, Links-split, Misses-split,
}

pub Distinct-last : (xs : List Node) (t : Node) → Distinct (xs ++ t ∷ []) → Misses t.0 xs
Distinct-last [] t d = tt
Distinct-last (x ∷ xs) t d =
    let (_, m) = Misses-split x.0 xs (t ∷ []) d.0 in (λ e. m.0 (sym e), Distinct-last xs t d.1)

Misses-add : (a : ℕ) (xs : List Node) (t : Node) → Misses a xs → t.0 ≢ a → Misses a (xs ++ t ∷ [])
Misses-add a [] t m n = (n, tt)
Misses-add a (x ∷ xs) t m n = (m.0, Misses-add a xs t m.1 n)

Distinct-add : (xs : List Node) (t : Node) → Distinct xs → Misses t.0 xs → Distinct (xs ++ t ∷ [])
Distinct-add [] t d m = (tt, tt)
Distinct-add (x ∷ xs) t d m =
    (Misses-add x.0 xs t d.0 (λ e. m.0 (sym e)), Distinct-add xs t d.1 m.1)

module _ (lst : Ends) (h : Heap) (elt : ℕ) (e : Elem) (real : elt ≢ 0) (here : h elt ≡ some e) where
  -- An allocated element that is not in the list goes in before all others: afterwards the heap
  -- holds the list with it in front.
  list_insert_head_lem :
      (xs : List Node)
      → Represents lst h xs
      → Misses elt xs
      → (lst1 : Ends) × (h1 : Heap) × (list_insert_head lst elt h ≡ ok (lst1, h1))
        × Represents lst1 h1 ((elt, e.datum) ∷ xs)
  unfolding list_insert_head
  list_insert_head_lem [] r m =
      let v : Elem = record e { prev = 0; next = 0 } in
      (
        record { head = elt; tail = elt },
        put h elt v,
        rw (r.starts, read-at h elt e here, write-at h elt e v here),
        record {
          starts = refl;
          ends = refl;
          linked = (real, put-here h elt v, tt);
          distinct = (tt, tt);
        },
      )
  list_insert_head_lem (x ∷ xs) r m = (
    record lst { head = elt },
    h2,
    rw (
      r.starts,
      nonzero x.0 r.linked.0,
      read-at h elt e here,
      write-at h elt e v here,
      read-at h1 x.0 old kept,
      write-at h1 x.0 old new kept,
    ),
    record {
      starts = refl;
      ends = r.ends;
      linked = (
        real,
        put-other h1 x.0 elt new (λ q. m.0 (sym q)) ∙ put-here h elt v,
        (
          r.linked.0,
          put-here h1 x.0 new,
          Links-put h1 x.0 new x.0 xs 0 r.distinct.0 (Links-put h elt v x.0 xs 0 m.1 r.linked.2),
        ),
      );
      distinct = (m, r.distinct);
    },
  )
    where
      v : Elem
      v = record e { prev = 0; next = x.0 }

      old : Elem
      old = record { prev = 0; next = first_of xs 0; datum = x.1 }

      new : Elem
      new = record old { prev = elt }

      h1 : Heap
      h1 = put h elt v

      h2 : Heap
      h2 = put h1 x.0 new

      kept : h1 x.0 ≡ some old
      kept = put-other h elt x.0 v m.0 ∙ r.linked.1

  insert_behind :
      (ys : List Node) (t : Node)
      → Represents lst h (ys ++ t ∷ [])
      → Misses elt (ys ++ t ∷ [])
      → (lst1 : Ends) × (h1 : Heap) × (list_insert_tail lst elt h ≡ ok (lst1, h1))
        × Represents lst1 h1 ((ys ++ t ∷ []) ++ (elt, e.datum) ∷ [])
  unfolding list_insert_tail
  insert_behind ys t r m = (
    record lst { tail = elt },
    h3,
    rw (
      r.ends,
      last-append 0 ys (t ∷ []),
      nonzero t.0 lt.0,
      read-at h elt e here,
      write-at h elt e v here,
      read-at h1 t.0 old kept,
      write-at h1 t.0 old new kept,
      read-at h2 elt v still,
      write-at h2 elt v done still,
    ),
    record {
      starts = r.starts ∙ same_start ys;
      ends = sym (last-append 0 (ys ++ t ∷ []) ((elt, e.datum) ∷ []));
      linked = rw (append_assoc ys (t ∷ []) ((elt, e.datum) ∷ [])) (
          Links-append h3 0 ys (t ∷ (elt, e.datum) ∷ []) 0
            (Links-put h2 elt done 0 ys t.0 my (
              Links-put h1 t.0 new 0 ys t.0 (Distinct-last ys t r.distinct)
                (Links-put h elt v 0 ys t.0 my ly)))
            (
              lt.0,
              put-other h2 elt t.0 done mt.0 ∙ put-here h1 t.0 new,
              (real, put-here h2 elt done, tt),
            ));
      distinct = Distinct-add (ys ++ t ∷ []) (elt, e.datum) r.distinct m;
    },
  )
    where
      ly : Links h 0 ys t.0
      ly = (Links-split h 0 ys (t ∷ []) 0 r.linked).0

      lt : Links h (last_of 0 ys) (t ∷ []) 0
      lt = (Links-split h 0 ys (t ∷ []) 0 r.linked).1

      my : Misses elt ys
      my = (Misses-split elt ys (t ∷ []) m).0

      mt : Misses elt (t ∷ [])
      mt = (Misses-split elt ys (t ∷ []) m).1

      same_start :
          (zs : List Node)
          → first_of (zs ++ t ∷ []) 0 ≡ first_of ((zs ++ t ∷ []) ++ (elt, e.datum) ∷ []) 0
      same_start [] = refl
      same_start (z ∷ zs) = refl

      v : Elem
      v = record e { prev = t.0 }

      old : Elem
      old = record { prev = last_of 0 ys; next = 0; datum = t.1 }

      new : Elem
      new = record old { next = elt }

      done : Elem
      done = record v { next = 0 }

      h1 : Heap
      h1 = put h elt v

      h2 : Heap
      h2 = put h1 t.0 new

      h3 : Heap
      h3 = put h2 elt done

      kept : h1 t.0 ≡ some old
      kept = put-other h elt t.0 v mt.0 ∙ lt.1

      still : h2 elt ≡ some v
      still = put-other h1 t.0 elt new (λ q. mt.0 (sym q)) ∙ put-here h elt v

  -- An allocated element that is not in the list goes in behind all others: afterwards the heap
  -- holds the list with it at the end.
  pub list_insert_tail_lem :
      (xs : List Node)
      → Represents lst h xs
      → Misses elt xs
      → (lst1 : Ends) × (h1 : Heap) × (list_insert_tail lst elt h ≡ ok (lst1, h1))
        × Represents lst1 h1 (xs ++ (elt, e.datum) ∷ [])
  unfolding list_insert_tail
  list_insert_tail_lem xs r m = elim (Last-of xs) [
    | none_last q ↦
        let v : Elem = record e { prev = 0; next = 0 } in
        (
          record { head = elt; tail = elt },
          put h elt v,
          rw (r.ends, q, read-at h elt e here, write-at h elt e v here),
          rw q (record {
            starts = refl;
            ends = refl;
            linked = (real, put-here h elt v, tt);
            distinct = (tt, tt);
          }),
        )
    | last ys t q ↦ rw q (insert_behind ys t (rw q at r) (rw q at m))
  ]

  -- An allocated element that is not in the list goes in before all others with `list_insert_head`
  -- and behind all others with `list_insert_tail`: neither crashes, and afterwards the heap holds
  -- the list with it at that end.
  pub list_insert_lem :
      (xs : List Node)
      → Represents lst h xs
      → Misses elt xs
      → ((lst1 : Ends) × (h1 : Heap) × (list_insert_head lst elt h ≡ ok (lst1, h1))
          × Represents lst1 h1 ((elt, e.datum) ∷ xs))
        × ((lst1 : Ends) × (h1 : Heap) × (list_insert_tail lst elt h ≡ ok (lst1, h1))
            × Represents lst1 h1 (xs ++ (elt, e.datum) ∷ []))
  list_insert_lem xs r m = (list_insert_head_lem xs r m, list_insert_tail_lem xs r m)
