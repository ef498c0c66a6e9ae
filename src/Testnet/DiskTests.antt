-- ===== src/Testnet/DiskTests.antt =====
-- Runs of the loops that copy, over a disk in memory, and their theorem at this input.
use mathlib.Core.List.{Memᴰ}
use chain_rice.Common.{
  ◌≡◌, ◌≢◌, refl, sym, ◌∙◌, ◌⊎◌, inl, inr, GoString, str, Bool, true, false, some, List, [], ◌∷◌,
  arith,
}
use chain_rice.Common.Result.{ok}
use chain_rice.Common.Run.{bind}
use chain_rice.Testnet.Disk.{is_sub_dir, copy_file, copy_one, copy_files, copy_to_dirs}
use chain_rice.Testnet.Disk.Copies.{target, Layout}
use chain_rice.Testnet.Disk.Everywhere.{copy_to_dirs-everywhere}
use chain_rice.Testnet.Samples.{Store, nothing, put, disk}

abbrev never : GoString → Bool
never p = false

abbrev dirs : List GoString
dirs = str "a/x" ∷ str "b/x" ∷ []

-- The file of the first node.
abbrev files : List GoString
files = str "a/x/f" ∷ []

in_own : is_sub_dir (disk never) (str "a/x/f") (str "a/x") ≡ ok true
unfolding is_sub_dir
in_own = refl

in_other : is_sub_dir (disk never) (str "a/x/f") (str "b/x") ≡ ok false
unfolding is_sub_dir
in_other = refl

only : (f : GoString) → Memᴰ f files → f ≡ str "a/x/f"
only f (Memᴰ.head e) = e
only f (Memᴰ.tail m) = elim m [ ]

one_of : (d : GoString) → Memᴰ d dirs → (d ≡ str "a/x") ⊎ (d ≡ str "b/x")
one_of d (Memᴰ.head e) = inl e
one_of d (Memᴰ.tail (Memᴰ.head e)) = inr e
one_of d (Memᴰ.tail (Memᴰ.tail m)) = elim m [ ]

paths : Layout (disk never) dirs files
unfolding is_sub_dir
paths = record {
  skipped = λ d f md mf ne. elim (one_of d md) [
    | inl e ↦ rw (e, only f mf) refl
    | inr e ↦ absurd (ne (rw (e, only f mf) refl))
  ];
  copied = λ d f g md mf mg yes. elim (one_of d md) [
    | inl e ↦ absurd (not_both (rw (e, only f mf) at yes))
    | inr e ↦ rw (e, only f mf, only g mg) elsewhere
  ];
  distinct = λ d d' f f' md md' mf mf' e. only f mf ∙ sym (only f' mf');
}
  where
    not_both : is_sub_dir (disk never) (str "a/x/f") (str "a/x") ≢ ok false
    not_both e = ground (arith, e, in_own)

    elsewhere : str "a/x/f" ≢ target (disk never) (str "b/x") (str "a/x/f")
    elsewhere e = ground (arith, e)

abbrev before : Store
before = put nothing (str "a/x/f") (some (7 ∷ []))

abbrev after : Store
after = (copy_to_dirs (disk never) dirs files before).1

copied : copy_to_dirs (disk never) dirs files before ≡ (ok tt, after)
unfolding bind copy_to_dirs copy_files copy_one copy_file is_sub_dir
copied = refl

copy_to_dirs-everywhere_example :
    ((d f : GoString)
      → Memᴰ d dirs
      → Memᴰ f files
      → after.files (target (disk never) d f) ≡ before.files f)
    × ((f : GoString) → Memᴰ f files → after.files f ≡ before.files f)
copy_to_dirs-everywhere_example =
    copy_to_dirs-everywhere (disk never) dirs files paths before after copied
