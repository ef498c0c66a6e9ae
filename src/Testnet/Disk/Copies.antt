-- ===== src/Testnet/Disk/Copies.antt =====
-- The copying of the gentx files: each node gets the files of all others.
use mathlib.Core.List.{Memᴰ}
use chain_rice.Common.{ℕ, ◌≡◌, ◌≢◌, GoString, false, some, List, [], ◌∷◌, arith}
use chain_rice.Common.Result.{ok}
use chain_rice.Common.Run.{bind-eq-ok}
use chain_rice.Testnet.Disk.{Disk, copy_file, is_sub_dir}

module _ (disk : Disk) where
  open disk use {State, content, join, base}

  abbrev pub target : GoString → GoString → GoString
  target dir file = join (dir ∷ base file ∷ [])

  -- A file that is copied elsewhere.
  pub copy_file_lem :
      (s s' : State) (src dir : GoString) (n : ℕ)
      → copy_file disk src dir s ≡ (ok n, s')
      → src ≢ target dir src
      → (content s' (target dir src) ≡ content s src)
        × ((p : GoString) → p ≢ target dir src → content s' p ≡ content s p)
  unfolding copy_file
  copy_file_lem s s' src dir n h ne =
      let dst = target dir src in
      let (u, s1, e1, h1) = bind-eq-ok (disk.open_file src) _ s s' h in
      let (v, s2, e2, h2) = bind-eq-ok (disk.create dst) _ s1 s' h1 in
      let (m, s3, e3, h3) = bind-eq-ok (disk.io_copy dst src) _ s2 s' h2 in
      let (w, s4, e4, h4) = bind-eq-ok (disk.sync dst) _ s3 s' h3 in
      let last : s4 ≡ s' = ground arith in
      let x1 = disk.open-content s s1 src src e1 in
      let x2 = disk.create-other s1 s2 dst src e2 ne in
      let x3 = disk.copy-own s2 s3 dst src m e3 in
      let x4 = disk.sync-content s3 s4 dst dst e4 in
      (
        cc,
        λ p other.
            let y1 = disk.open-content s s1 src p e1 in
            let y2 = disk.create-other s1 s2 dst p e2 other in
            let y3 = disk.copy-other s2 s3 dst src p m e3 other in
            let y4 = disk.sync-content s3 s4 dst p e4 in cc,
      )

  -- Copied onto itself, a file loses its content, since `Create` comes before `Copy`.
  pub copy_file_self :
      (s s' : State) (src dir : GoString) (n : ℕ)
      → copy_file disk src dir s ≡ (ok n, s')
      → src ≡ target dir src
      → content s' src ≡ some []
  unfolding copy_file
  copy_file_self s s' src dir n h same =
      let dst = target dir src in
      let (u, s1, e1, h1) = bind-eq-ok (disk.open_file src) _ s s' h in
      let (v, s2, e2, h2) = bind-eq-ok (disk.create dst) _ s1 s' h1 in
      let (m, s3, e3, h3) = bind-eq-ok (disk.io_copy dst src) _ s2 s' h2 in
      let (w, s4, e4, h4) = bind-eq-ok (disk.sync dst) _ s3 s' h3 in
      let last : s4 ≡ s' = ground arith in
      let x2 = disk.create-own s1 s2 dst e2 in
      let x3 = disk.copy-own s2 s3 dst src m e3 in let x4 = disk.sync-content s3 s4 dst dst e4 in cc

  -- What the paths have to be, for directories and files of these lists: a file that is passed over is
  -- in the directory, one that is copied goes to none of the files, and two files have different
  -- targets.
  pub record Layout (dirs files : List GoString) : Type 0 where
    pub skipped :
        (d f : GoString)
        → Memᴰ d dirs
        → Memᴰ f files
        → is_sub_dir disk f d ≢ ok false
        → target d f ≡ f
    pub copied :
        (d f g : GoString)
        → Memᴰ d dirs
        → Memᴰ f files
        → Memᴰ g files
        → is_sub_dir disk f d ≡ ok false
        → g ≢ target d f
    pub distinct :
        (d d' f f' : GoString)
        → Memᴰ d dirs
        → Memᴰ d' dirs
        → Memᴰ f files
        → Memᴰ f' files
        → target d f ≡ target d' f'
        → f ≡ f'
