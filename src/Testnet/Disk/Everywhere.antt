-- ===== src/Testnet/Disk/Everywhere.antt =====
-- After the two loops that copy, each node's directory has the gentx files of all nodes.
use mathlib.Core.List.{Memᴰ}
use chain_rice.Common.{
  ◌≡◌, ◌≢◌, refl, sym, ◌∙◌, GoString, bytes_dec, Bool, true, false, List, [], ◌∷◌, inl, inr, arith,
}
use chain_rice.Common.Result.{Result, ok, err, panic}
use chain_rice.Common.Run.{bind-eq-ok}
use chain_rice.Testnet.Disk.{
  Disk, copy_file, is_sub_dir, copy_unless, copy_one, copy_files, copy_to_dirs,
}
use chain_rice.Testnet.Disk.Copies.{target, copy_file_lem, Layout}

module _ (disk : Disk) (dirs files : List GoString) (paths : Layout disk dirs files) where
  open disk use {State, content}

  -- What one round does to the files.
  abbrev Round : GoString → GoString → State → State → Type 0
  Round d f s s' =
      ((g : GoString) → Memᴰ g files → content s' g ≡ content s g)
      × (content s' (target disk d f) ≡ content s f)
      × ((p : GoString) → p ≢ target disk d f → content s' p ≡ content s p)

  skip-Round :
      (d f : GoString) (s s' : State)
      → Memᴰ d dirs
      → Memᴰ f files
      → is_sub_dir disk f d ≢ ok false
      → s ≡ s'
      → Round d f s s'
  skip-Round d f s s' md mf ne e =
      let same = paths.skipped d f md mf ne in (λ g m. cc, cc, λ p other. cc)

  copy-Round :
      (d f : GoString) (s s' : State)
      → Memᴰ d dirs
      → Memᴰ f files
      → is_sub_dir disk f d ≡ ok false
      → copy_unless disk (ok false) f d s ≡ (ok tt, s')
      → Round d f s s'
  copy-Round d f s s' md mf e h =
      let (n, t, copied, rest) = bind-eq-ok (copy_file disk f d) _ s s' h in
      let last : t ≡ s' = ground arith in
      let (own, others) = copy_file_lem disk s t f d n copied (paths.copied d f f md mf mf e) in
      (
        λ g m. let x = others g (paths.copied d f g md mf m e) in cc,
        cc,
        λ p other. let x = others p other in cc,
      )

  copy_unless-Round :
      (r : Result Bool) (d f : GoString) (s s' : State)
      → Memᴰ d dirs
      → Memᴰ f files
      → is_sub_dir disk f d ≡ r
      → copy_unless disk r f d s ≡ (ok tt, s')
      → Round d f s s'
  copy_unless-Round (ok true) d f s s' md mf e h =
      skip-Round d f s s' md mf (λ x. absurd (ground (arith, e, x))) (ground arith)
  copy_unless-Round (ok false) d f s s' md mf e h = copy-Round d f s s' md mf e h
  copy_unless-Round (err x) d f s s' md mf e h =
      skip-Round d f s s' md mf (λ y. absurd (ground (arith, e, y))) (ground arith)
  copy_unless-Round (panic x) d f s s' md mf e h = absurd (ground arith)

  module _ (start : State) where
    -- The files are as at the start.
    abbrev Unchanged : State → Type 0
    Unchanged s = (g : GoString) → Memᴰ g files → content s g ≡ content start g

    -- A directory has its copy of a file.
    abbrev Has : State → GoString → GoString → Type 0
    Has s d f = content s (target disk d f) ≡ content start f

    one-Has :
        (d f : GoString) (s s' : State) → Memᴰ f files → Round d f s s' → Unchanged s → Has s' d f
    one-Has d f s s' mf r u = r.1 ∙ u f mf

    -- No round takes a copy away.
    one-keeps :
        (d f d' f' : GoString) (s s' : State)
        → Memᴰ d dirs
        → Memᴰ f files
        → Memᴰ d' dirs
        → Memᴰ f' files
        → Round d f s s'
        → Unchanged s
        → Has s d' f'
        → Has s' d' f'
    one-keeps d f d' f' s s' md mf md' mf' r u h =
        elim (bytes_dec (target disk d' f') (target disk d f)) [
          | inl e ↦
              let same = paths.distinct d d' f f' md md' mf mf' (sym e) in
              let new = one-Has d f s s' mf r u in cc
          | inr ne ↦ r.2 (target disk d' f') ne ∙ h
        ]

    -- What a loop over `fs` does in the directory `d`.
    abbrev Done : GoString → List GoString → State → State → Type 0
    Done d fs s s' =
        Unchanged s'
        × ((f : GoString) → Memᴰ f fs → Has s' d f)
        × ((d' f' : GoString) → Memᴰ d' dirs → Memᴰ f' files → Has s d' f' → Has s' d' f')

    files_loop :
        (fs : List GoString) (d : GoString) (s s' : State)
        → Memᴰ d dirs
        → ((f : GoString) → Memᴰ f fs → Memᴰ f files)
        → Unchanged s
        → copy_files disk d fs s ≡ (ok tt, s')
        → Done d fs s s'
    unfolding copy_files copy_one
    files_loop [] d s s' md sub u h =
        let last : s ≡ s' = ground arith in
        (λ g m. let x = u g m in cc, λ f m. elim m [ ], λ d' f' md' mf' x. cc)
    files_loop (f ∷ fs) d s s' md sub u h =
        let (v, t, first, rest) = bind-eq-ok (copy_one disk d f) _ s s' h in
        let mf = sub f (Memᴰ.head refl) in
        let r = copy_unless-Round (is_sub_dir disk f d) d f s t md mf refl first in
        let u' : Unchanged t = λ g m. r.0 g m ∙ u g m in
        let tail = files_loop fs d t s' md (λ x m. sub x (Memᴰ.tail m)) u' rest in
        (
          tail.0,
          λ x m. elim m [
            | Memᴰ.head e ↦ let here = tail.2 d f md mf (one-Has d f s t mf r u) in cc
            | Memᴰ.tail m' ↦ tail.1 x m'
          ],
          λ d' f' md' mf' x. tail.2 d' f' md' mf' (one-keeps d f d' f' s t md mf md' mf' r u x),
        )

    dirs_loop :
        (ds : List GoString) (s s' : State)
        → ((d : GoString) → Memᴰ d ds → Memᴰ d dirs)
        → Unchanged s
        → copy_to_dirs disk ds files s ≡ (ok tt, s')
        → Unchanged s'
          × ((d f : GoString) → Memᴰ d ds → Memᴰ f files → Has s' d f)
          × ((d' f' : GoString) → Memᴰ d' dirs → Memᴰ f' files → Has s d' f' → Has s' d' f')
    unfolding copy_to_dirs
    dirs_loop [] s s' sub u h =
        let last : s ≡ s' = ground arith in
        (λ g m. let x = u g m in cc, λ d f m. elim m [ ], λ d' f' md' mf' x. cc)
    dirs_loop (d ∷ ds) s s' sub u h =
        let (v, t, first, rest) = bind-eq-ok (copy_files disk d files) _ s s' h in
        let md = sub d (Memᴰ.head refl) in
        let one = files_loop files d s t md (λ f m. m) u first in
        let tail = dirs_loop ds t s' (λ x m. sub x (Memᴰ.tail m)) one.0 rest in
        (
          tail.0,
          λ x f m mf. elim m [
            | Memᴰ.head e ↦ let here = tail.2 d f md mf (one.1 f mf) in cc
            | Memᴰ.tail m' ↦ tail.1 x f m' mf
          ],
          λ d' f' md' mf' x. tail.2 d' f' md' mf' (one.2 d' f' md' mf' x),
        )

  -- If the loops that copy end without an error, each of the directories has under the name of each of
  -- the files the content that this file had at the start, and the files themselves are as they were,
  -- where the paths are laid out as in `Layout`.
  pub copy_to_dirs-everywhere :
      (s s' : State)
      → copy_to_dirs disk dirs files s ≡ (ok tt, s')
      → ((d f : GoString) → Memᴰ d dirs → Memᴰ f files → content s' (target disk d f) ≡ content s f)
        × ((f : GoString) → Memᴰ f files → content s' f ≡ content s f)
  copy_to_dirs-everywhere s s' h =
      let all = dirs_loop s dirs s s' (λ d m. m) (λ g m. refl) h in (all.1, all.0)
