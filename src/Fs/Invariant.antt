-- ===== src/Fs/Invariant.antt =====
-- A sound file system, and what `fs_create`, `fs_delete` and `fs_write` at the end of a file make of it.
use team_otw_os_labs.Base.{
  ℕ, ◌-◌, ◌<◌, ◌≡◌, ◌≤◌, ◌≢◌, ◌==◌, ltb, sym, ap, ◌∙◌, List, ok, length, load, get_or, arith, inl,
  inr, Bool-cases, ok-injective, true, false, int_of_char,
}
use team_otw_os_labs.Disk.{Host}
use team_otw_os_labs.Fs.State.{FileMeta, Descriptor, Fs}
use team_otw_os_labs.Fs.Content.{Faithful}
use team_otw_os_labs.Fs.Sound.{IsLaidOut, Marked}
use team_otw_os_labs.Fs.Past.{Appends}

-- No block is shared by two files.
abbrev pub AreApart : FileMeta → FileMeta → Type 0
AreApart f g =
    (k l : ℕ) → k < f.num_blocks → l < g.num_blocks → get_or f.blocks k 0 ≢ get_or g.blocks l 0

-- The lists and the table of a mounted file system are right: a file in use has different data
-- blocks, they are marked in the table, and no two files in use share one.
pub record IsSound (metas : List FileMeta) (usage : List ℕ) : Type 0 where
  pub table : length usage ≡ 4096
  pub files : length metas ≡ 64
  pub rooms : (m : ℕ) (f : FileMeta) → load metas m ≡ ok f → length f.blocks ≡ 4096
  pub laid_out : (m : ℕ) (f : FileMeta) → load metas m ≡ ok f → f.in_use ≢ 0 → IsLaidOut f
  pub marked : (m : ℕ) (f : FileMeta) → load metas m ≡ ok f → f.in_use ≢ 0 → Marked usage f
  pub apart :
      (m n : ℕ) (f g : FileMeta)
      → m ≢ n
      → load metas m ≡ ok f
      → load metas n ≡ ok g
      → f.in_use ≢ 0
      → g.in_use ≢ 0
      → AreApart f g

-- Files without blocks need no marks.
pub empty-IsSound :
    (metas : List FileMeta) (usage : List ℕ)
    → length usage ≡ 4096
    → length metas ≡ 64
    → ((m : ℕ) (f : FileMeta)
        → load metas m ≡ ok f
        → (length f.blocks ≡ 4096) × (f.num_blocks ≡ 0) × (f.size_last ≡ 0))
    → IsSound metas usage
empty-IsSound metas usage table files empty = record {
  table = table;
  files = files;
  rooms = λ m f at. (empty m f at).0;
  laid_out = λ m f at u.
      let (room, no_block, no_byte) = empty m f at in
      record {
        room = room;
        few = omega arith;
        last_block = omega arith;
        in_data = λ k h. absurd (omega arith);
        apart = λ k l h h' ne. absurd (omega arith);
      };
  marked = λ m f at u k h. let (room, no_block, no_byte) = empty m f at in absurd (omega arith);
  apart = λ m n f g ne at at' u u' k l h h'.
      let (room, no_block, no_byte) = empty m f at in absurd (omega arith);
}

-- One entry of the list is changed.
module _ (metas metas1 : List FileMeta) (n : ℕ) (f1 : FileMeta) (there : load metas1 n ≡ ok f1)
    (only : (m : ℕ) → m ≢ n → load metas1 m ≡ load metas m) where
  -- A predicate that holds of the new entry and of the others holds of all.
  pub each :
      (P : ℕ → FileMeta → Type 0)
      → P n f1
      → ((m : ℕ) (g : FileMeta) → m ≢ n → load metas m ≡ ok g → P m g)
      → (m : ℕ) (g : FileMeta) → load metas1 m ≡ ok g
      → P m g
  each P new old m g at = elim (Bool-cases (m == n)) [
    | inl q ↦
        let q' : m ≡ n = ground arith in
        let same : g ≡ f1 = ok-injective (sym at ∙ (ap (load metas1) q' ∙ there)) in
        rw (q', same) new
    | inr q ↦ let q' : m ≢ n = ground arith in old m g q' (sym (only m q') ∙ at)
  ]

module _ (metas metas1 : List FileMeta) (usage usage1 : List ℕ) (s : IsSound metas usage) (n : ℕ)
    (f1 : FileMeta) (there : load metas1 n ≡ ok f1)
    (only : (m : ℕ) → m ≢ n → load metas1 m ≡ load metas m) where
  pub change-IsSound :
      length metas1 ≡ length metas
      → length usage1 ≡ 4096
      → length f1.blocks ≡ 4096
      → (f1.in_use ≢ 0 → IsLaidOut f1)
      → (f1.in_use ≢ 0 → Marked usage1 f1)
      → ((m : ℕ) (g : FileMeta) → m ≢ n → load metas m ≡ ok g → g.in_use ≢ 0 → Marked usage1 g)
      → ((m : ℕ) (g : FileMeta)
          → m ≢ n
          → load metas m ≡ ok g
          → f1.in_use ≢ 0
          → g.in_use ≢ 0
          → AreApart f1 g)
      → IsSound metas1 usage1
  change-IsSound count table room laid marks others apart1 = record {
    table = table;
    files = count ∙ s.files;
    rooms =
        each metas metas1 n f1 there only (λ m g. length g.blocks ≡ 4096) room
          (λ m g ne at. s.rooms m g at);
    laid_out =
        each metas metas1 n f1 there only (λ m g. g.in_use ≢ 0 → IsLaidOut g) laid
          (λ m g ne at. s.laid_out m g at);
    marked = each metas metas1 n f1 there only (λ m g. g.in_use ≢ 0 → Marked usage1 g) marks others;
    apart = λ m m' g g' ne at at'.
        each metas metas1 n f1 there only
          (λ a x. a ≢ m' → x.in_use ≢ 0 → g'.in_use ≢ 0 → AreApart x g')
          (λ ne' u u'.
            apart1 m' g' (λ q. ne' (sym q)) (sym (only m' (λ q. ne' (sym q))) ∙ at') u u')
          (λ a x a_ne a_at ne' u u'.
            each metas metas1 n f1 there only (λ b y. a ≢ b → y.in_use ≢ 0 → AreApart x y)
              (λ _ u1 k l hk hl e. apart1 a x a_ne a_at u1 u l k hl hk (sym e))
              (λ b y b_ne b_at ab u1. s.apart a b x y ab a_at b_at u u1) m' g' at' ne' u')
          m g at ne;
  }

below : (a b : ℕ) → ltb a b ≡ true → a < b
below a b e = ground arith

not_below : (a b : ℕ) → ltb a b ≡ false → b ≤ a
not_below a b e = ground arith

-- The sound state after the write of `fs_write` at the end of a file in use.
pub Appends-IsSound :
    (host : Host) (faith : Faithful host) (junk1 : List ℕ) (i : ℕ) (d : Descriptor) (f : FileMeta)
    (source : List ℕ) (nbyte : ℕ) (fs fs1 : Fs host) (count : ℕ) (file : FileMeta)
    → IsSound fs.file_metas fs.usage
    → load fs.file_metas (int_of_char d.file) ≡ ok f
    → f.in_use ≢ 0
    → Appends host faith junk1 i d f source nbyte fs fs1 count file
    → IsSound fs1.file_metas fs1.usage
Appends-IsSound host faith junk1 i d f source nbyte fs fs1 count file s here used a =
    let n = int_of_char d.file in
    let l = s.laid_out n f here used in
    let marks = s.marked n f here used in
    change-IsSound fs.file_metas fs1.file_metas fs.usage fs1.usage s n file a.still_open.has_file
      a.metas_same a.files a.table a.laid_out.room (λ u. a.laid_out) (λ u. a.marked)
      (λ m g ne at u k h e. a.kept (get_or g.blocks k 0 - 4096) (s.marked m g at u k h) e)
      (λ m g ne at u u' k k' hk hk' e. elim (Bool-cases (ltb k f.num_blocks)) [
        | inl q ↦
            let q' = below k f.num_blocks q in
            s.apart n m f g (λ p. ne (sym p)) here at used u' k k' q' hk'
              (sym (a.same_entries k q') ∙ e)
        | inr q ↦ s.marked m g at u' k' hk' (
            ap (λ b. get_or fs.usage (b - 4096) 0) (sym e)
            ∙ a.fresh_entries k (not_below k f.num_blocks q) hk)
      ])
