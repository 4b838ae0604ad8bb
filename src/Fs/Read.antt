-- ===== src/Fs/Read.antt =====
-- What `fs_read` returns.
use team_otw_os_labs.Base.{
  ℕ, zero, suc, ◌+◌, ◌-◌, ◌%◌, ◌^◌, ◌<◌, ◌≡◌, true, false, not, ◌==◌, ◌||◌, ok, ◌>>=◌, arith,
  if◌then◌else◌, ltb, IsSmall, Bool-cases, inl, inr, lt_int_small,
}
use team_otw_os_labs.Disk.{Host}
use team_otw_os_labs.Fs.State.{FileMeta, Descriptor, Fs}
use team_otw_os_labs.Fs.Files.{file_size}
use team_otw_os_labs.Fs.Transfer.{Reading, read_round, read_loop}
use team_otw_os_labs.Fs.Open.{IsOpen, filesize_open, load-set}
use team_otw_os_labs.Fs.Cut.{IsSized, size-IsSmall, inside_file}
use team_otw_os_labs.Fs.Content.{Faithful}
use team_otw_os_labs.Fs.Least.{HasBlocks, least, least-le, least-positive, rem_small, sub_small}
use team_otw_os_labs.Fs.Round.{HasRead, stopped, turned, advanced}

pick :
    {A : Type 0} (to : ℕ → A) (x : A) (left room : ℕ)
    → 0 < left
    → (if ltb left room then (if left == 0 then x else to left) else to room) ≡ to (least left room)
pick to x left room h = elim (Bool-cases (ltb left room)) [
  | inl e ↦ rw (e, positive left h)
  | inr e ↦ rw e
]
  where
    positive : (n : ℕ) → 0 < n → (n == 0) ≡ false
    positive n h = ground arith

module _ (host : Host) (faith : Faithful host) (f : FileMeta) (blocks : HasBlocks f)
    (sized : IsSized f) where
  stops :
      (fuel i : ℕ) (d : Descriptor) (r : Reading host) (size : ℕ)
      → file_size f ≡ size
      → IsOpen host r.fs i d f
      → IsSmall d.cursor
      → (not (ltb d.cursor size) || r.nbyte == 0) ≡ true
      → read_loop host (suc fuel) i r ≡ ok r
  unfolding read_loop
  stops fuel i d r size e o small h = rw (
    o.found,
    filesize_open host r.fs i d f o,
    e,
    lt_int_small d.cursor size small (size-IsSmall f size sized e),
    h,
  )

  goes :
      (fuel i : ℕ) (d : Descriptor) (r : Reading host) (size : ℕ)
      → file_size f ≡ size
      → IsOpen host r.fs i d f
      → d.cursor < size
      → (not (ltb d.cursor size) || r.nbyte == 0) ≡ false
      → read_loop host (suc fuel) i r ≡ (
          read_round host i (d.cursor % 4096) (least (size - d.cursor) (4096 - d.cursor % 4096)) d r
          >>= read_loop host fuel i)
  unfolding read_loop
  goes fuel i d r size e o below h =
      let small = size-IsSmall f size sized e in
      rw
        (
          o.found,
          filesize_open host r.fs i d f o,
          e,
          lt_int_small d.cursor size (omega (arith, small)) small,
          h,
          rem_small d.cursor (omega (arith, small)),
          sub_small 4096 (d.cursor % 4096) (omega arith) (omega arith),
          sub_small size d.cursor small (omega arith),
          lt_int_small (size - d.cursor) (4096 - d.cursor % 4096) (omega (arith, small))
              (omega arith),
        )
        (pick (λ dist. read_round host i (d.cursor % 4096) dist d r >>= read_loop host fuel i)
          (ok r) (size - d.cursor) (4096 - d.cursor % 4096) (omega arith))

  advanced-IsOpen :
      (i : ℕ) (d : Descriptor) (r : Reading host) (n : ℕ)
      → IsOpen host r.fs i d f
      → IsOpen host
          (advanced host faith f blocks i d n r).fs
          i
          (record d { cursor = d.cursor + n })
          f
  advanced-IsOpen i d r n o = record {
    mounted = o.mounted;
    found = load-set r.fs.descriptors i (record d { cursor = d.cursor + n }) d o.found;
    taken = o.taken;
    has_file = o.has_file;
  }

  pub read_loop_lem :
      (fuel i : ℕ) (d : Descriptor) (r : Reading host) (size : ℕ)
      → file_size f ≡ size
      → IsOpen host r.fs i d f
      → IsSmall d.cursor
      → IsSmall (r.done + (size - d.cursor))
      → r.nbyte < 2 ^ 64
      → r.nbyte < fuel
      → HasRead host faith f blocks fuel i d r (least r.nbyte (size - d.cursor))
  read_loop_lem zero i d r size e o small done_small big enough = absurd (omega arith)
  read_loop_lem (suc fuel) i d r size e o small done_small big enough =
      elim (Bool-cases (not (ltb d.cursor size) || r.nbyte == 0)) [
        | inl h ↦
            stopped host faith f blocks (suc fuel) i d r _ (nothing h) o
              (stops fuel i d r size e o small h)
        | inr h ↦
            let (below, some_left) = more h in
            let dist = least (size - d.cursor) (4096 - d.cursor % 4096) in
            let n = least r.nbyte dist in
            let (le_l, le_r) = least-le (size - d.cursor) (4096 - d.cursor % 4096) in
            let (le_m, le_d) = least-le r.nbyte dist in
            turned host faith f blocks fuel i d r dist size o le_r
              (inside_file f d.cursor size sized e below) (omega (arith, le_l))
              (size-IsSmall f size sized e) done_small big (goes fuel i d r size e o below h)
              (read_loop_lem fuel i (record d { cursor = d.cursor + n })
                (advanced host faith f blocks i d n r) size e (advanced-IsOpen i d r n o)
                (omega (arith, le_d, le_l, size-IsSmall f size sized e))
                (omega (arith, le_d, le_l, done_small)) (omega (arith, big))
                (omega (
                  arith,
                  least-positive r.nbyte dist some_left (
                      least-positive (size - d.cursor) (4096 - d.cursor % 4096) (omega arith)
                        (omega arith)),
                )))
      ]
    where
      nothing :
          (not (ltb d.cursor size) || r.nbyte == 0) ≡ true → least r.nbyte (size - d.cursor) ≡ 0
      nothing h = ground arith

      more : (not (ltb d.cursor size) || r.nbyte == 0) ≡ false → (d.cursor < size) × (0 < r.nbyte)
      more h = ground arith
