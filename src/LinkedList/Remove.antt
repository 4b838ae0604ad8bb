-- ===== src/LinkedList/Remove.antt =====
-- `list_remove_elem` on the list of the elements.
use team_otw_os_labs.Base.{
  ℕ, ◌≡◌, List, [], ◌∷◌, ◌++◌, some, ok, refl, sym, ◌∙◌, none_last, last, Last-of, eq_refl,
}
use team_otw_os_labs.LinkedList.{Elem, Ends, Heap, put, unlink_prev, unlink_next, list_remove_elem}
use team_otw_os_labs.LinkedList.Represents.{
  Node, first_of, last_of, Links, Misses, Distinct, Represents, put-here, put-other, read-at,
  write-at, nonzero, Links-put, last-append, Links-append, Links-split, Misses-split, Misses-append,
  first-append,
}
use team_otw_os_labs.LinkedList.Insert.{Distinct-last}

-- No element of the first list is in the second one.
abbrev Apart : List Node → List Node → Type 0
Apart [] ys = Unit
Apart (x ∷ xs) ys = Misses x.0 ys × Apart xs ys

Apart-nil : (xs : List Node) → Apart xs []
Apart-nil [] = tt
Apart-nil (x ∷ xs) = (tt, Apart-nil xs)

Apart-cons :
    (xs : List Node) (y : Node) (ys : List Node) → Misses y.0 xs → Apart xs ys → Apart xs (y ∷ ys)
Apart-cons [] y ys m a = tt
Apart-cons (x ∷ xs) y ys m a = ((λ e. m.0 (sym e), a.0), Apart-cons xs y ys m.1 a.1)

Apart-sym : (xs ys : List Node) → Apart xs ys → Apart ys xs
Apart-sym [] ys a = Apart-nil ys
Apart-sym (x ∷ xs) ys a = Apart-cons ys x xs a.0 (Apart-sym xs ys a.1)

Apart-tail :
    (xs : List Node) (y : Node) (ys : List Node) → Apart xs (y ∷ ys) → Misses y.0 xs × Apart xs ys
Apart-tail [] y ys a = (tt, tt)
Apart-tail (x ∷ xs) y ys a =
    let (m, b) = Apart-tail xs y ys a.1 in ((λ e. a.0.0 (sym e), m), (a.0.1, b))

Distinct-split : (xs ys : List Node) → Distinct (xs ++ ys) → Distinct xs × Distinct ys × Apart xs ys
Distinct-split [] ys d = (tt, d, tt)
Distinct-split (x ∷ xs) ys d =
    let (m, n) = Misses-split x.0 xs ys d.0 in
    let (a, b, c) = Distinct-split xs ys d.1 in ((m, a), b, (n, c))

Distinct-append :
    (xs ys : List Node) → Distinct xs → Distinct ys → Apart xs ys → Distinct (xs ++ ys)
Distinct-append [] ys d e a = e
Distinct-append (x ∷ xs) ys d e a =
    (Misses-append x.0 xs ys d.0 a.0, Distinct-append xs ys d.1 e a.1)

-- The two heaps agree outside the elements of `ys`.
abbrev Frame : Heap → Heap → List Node → Type 0
Frame h h1 ys = (b : ℕ) → Misses b ys → h1 b ≡ h b

Links-Frame :
    (h h1 : Heap) (ys : List Node) (p : ℕ) (xs : List Node) (q : ℕ)
    → Frame h h1 ys
    → Apart xs ys
    → Links h p xs q
    → Links h1 p xs q
Links-Frame h h1 ys p [] q f a l = tt
Links-Frame h h1 ys p (x ∷ xs) q f a l =
    (l.0, f x.0 a.0 ∙ l.1, Links-Frame h h1 ys x.0 xs q f a.1 l.2)

abbrev element : List Node → ℕ → ℕ → Elem
element ys n d = record { prev = last_of 0 ys; next = n; datum = d }

-- The first half: what stands before the element is linked to what follows it.
pub unlink_prev_lem :
    (lst : Ends) (h : Heap) (ys : List Node) (a n d : ℕ)
    → lst.head ≡ first_of ys a
    → Links h 0 ys a
    → Distinct ys
    → (lst1 : Ends) × (h1 : Heap) × (unlink_prev lst (element ys n d) a h ≡ ok (lst1, h1))
      × (lst1.head ≡ first_of ys n)
      × (lst1.tail ≡ lst.tail)
      × Links h1 0 ys n
      × Frame h h1 ys
unfolding unlink_prev
unlink_prev_lem lst h ys a n d s l u = elim (Last-of ys) [
  | none_last q ↦ rw q (alone (rw q at s))
  | last ws t q ↦ rw q (behind ws t (rw q at s) (rw q at l) (rw q at u))
]
  where
    alone :
        lst.head ≡ a
        → (lst1 : Ends) × (h1 : Heap) × (unlink_prev lst (element [] n d) a h ≡ ok (lst1, h1))
          × (lst1.head ≡ n)
          × (lst1.tail ≡ lst.tail)
          × Links h 0 [] n
          × Frame h h1 []
    alone s = (record lst { head = n }, h, rw (s, eq_refl a), refl, refl, tt, λ b m. refl)

    behind :
        (ws : List Node) (t : Node)
        → lst.head ≡ first_of (ws ++ t ∷ []) a
        → Links h 0 (ws ++ t ∷ []) a
        → Distinct (ws ++ t ∷ [])
        → (lst1 : Ends) × (h1 : Heap) × (unlink_prev lst (element (ws ++ t ∷ []) n d) a h
            ≡ ok (lst1, h1))
          × (lst1.head ≡ first_of (ws ++ t ∷ []) n)
          × (lst1.tail ≡ lst.tail)
          × Links h1 0 (ws ++ t ∷ []) n
          × Frame h h1 (ws ++ t ∷ [])
    behind ws t s l u =
        let (lw, lt) = Links-split h 0 ws (t ∷ []) a l in
        let old : Elem = record { prev = last_of 0 ws; next = a; datum = t.1 } in
        let new : Elem = record old { next = n } in
        (
          lst,
          put h t.0 new,
          rw (
            last-append 0 ws (t ∷ []),
            nonzero t.0 lt.0,
            read-at h t.0 old lt.1,
            write-at h t.0 old new lt.1,
          ),
          s ∙ (first-append ws (t ∷ []) a ∙ sym (first-append ws (t ∷ []) n)),
          refl,
          Links-append (put h t.0 new) 0 ws (t ∷ []) n
              (Links-put h t.0 new 0 ws t.0 (Distinct-last ws t u) lw)
              (lt.0, put-here h t.0 new, tt),
          λ b m. put-other h t.0 b new (λ e. (Misses-split b ws (t ∷ []) m).1.0 (sym e)),
        )

-- The second half: what follows the element is linked to what stands before it.
unlink_next_lem :
    (lst : Ends) (h : Heap) (p : ℕ) (zs : List Node) (a d : ℕ)
    → h a ≡ some (record { prev = p; next = first_of zs 0; datum = d })
    → lst.tail ≡ last_of a zs
    → Links h a zs 0
    → Distinct zs
    → (lst1 : Ends) × (h1 : Heap) × (unlink_next lst a h ≡ ok (lst1, h1))
      × (lst1.head ≡ lst.head)
      × (lst1.tail ≡ last_of p zs)
      × Links h1 p zs 0
      × Frame h h1 zs
unfolding unlink_next
unlink_next_lem lst h p [] a d here s l u = (
  record lst { tail = p },
  h,
  rw (read-at h a (record { prev = p; next = 0; datum = d }) here, s, eq_refl a),
  refl,
  refl,
  tt,
  λ b m. refl,
)
unlink_next_lem lst h p (z ∷ zs) a d here s l u =
    let old : Elem = record { prev = a; next = first_of zs 0; datum = z.1 } in
    let new : Elem = record old { prev = p } in
    (
      lst,
      put h z.0 new,
      rw (
        read-at h a (record { prev = p; next = z.0; datum = d }) here,
        nonzero z.0 l.0,
        read-at h z.0 old l.1,
        write-at h z.0 old new l.1,
      ),
      refl,
      s,
      (l.0, put-here h z.0 new, Links-put h z.0 new z.0 zs 0 u.0 l.2),
      λ b m. put-other h z.0 b new (λ e. m.0 (sym e)),
    )

-- An element of the list is taken out of it: afterwards the heap holds the others in their order.
pub list_remove_elem_lem :
    (lst : Ends) (h : Heap) (ys : List Node) (x : Node) (zs : List Node)
    → Represents lst h (ys ++ x ∷ zs)
    → (lst1 : Ends) × (h1 : Heap) × (list_remove_elem lst x.0 h ≡ ok (lst1, h1))
      × Represents lst1 h1 (ys ++ zs)
unfolding list_remove_elem
list_remove_elem_lem lst h ys x zs r =
    let (ly, lx) = Links-split h 0 ys (x ∷ zs) 0 r.linked in
    let (dy, dx, apart) = Distinct-split ys (x ∷ zs) r.distinct in
    let (my, yz) = Apart-tail ys x zs apart in
    let zy = Apart-sym ys zs yz in
    let n : ℕ = first_of zs 0 in
    let e : Elem = element ys n x.1 in
    let (lst1, h1, run1, head1, tail1, links1, frame1) =
      unlink_prev_lem lst h ys x.0 n x.1 (r.starts ∙ first-append ys (x ∷ zs) 0) ly dy in
    let here1 = frame1 x.0 my ∙ lx.1 in
    let (lst2, h2, run2, head2, tail2, links2, frame2) =
      unlink_next_lem lst1 h1 (last_of 0 ys) zs x.0 x.1 here1
        (tail1 ∙ (r.ends ∙ last-append 0 ys (x ∷ zs))) (Links-Frame h h1 ys x.0 zs 0 frame1 zy lx.2)
        dx.1 in
    let here2 = frame2 x.0 dx.0 ∙ here1 in
    let out : Elem = record e { prev = 0; next = 0 } in
    (
      lst2,
      put h2 x.0 out,
      rw (read-at h x.0 e lx.1, run1, run2, read-at h2 x.0 e here2, write-at h2 x.0 e out here2),
      record {
        starts = head2 ∙ (head1 ∙ sym (first-append ys zs 0));
        ends = tail2 ∙ sym (last-append 0 ys zs);
        linked =
            Links-append (put h2 x.0 out) 0 ys zs 0
              (Links-put h2 x.0 out 0 ys n my (Links-Frame h1 h2 zs 0 ys n frame2 yz links1))
              (Links-put h2 x.0 out (last_of 0 ys) zs 0 dx.0 links2);
        distinct = Distinct-append ys zs dy dx.1 yz;
      },
    )
