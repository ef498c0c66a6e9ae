-- ===== src/Testnet/Disk.antt =====
-- The files of the multi-node testnet: writeFile, copyFile, isSubDir, and the packages os, io and
-- path/filepath that they call.
pub mod Copies
pub mod Everywhere
pub mod Ends
use chain_rice.Common.{
  ℕ, ◌≡◌, ◌≢◌, GoString, str, Bytes, Bool, true, false, not, ◌&&◌, ◌==◌, Option, none, some, List,
  [], ◌∷◌,
}
use chain_rice.Common.Result.{Error, wrap, Result, ok, err, panic}
use chain_rice.Common.Run.{Run, pure, fail, lift, ◌>>=◌, ◌>>◌}

-- `content` is the content of the file at a path. `Open` finds the file, `Create` makes it empty,
-- `RemoveAll d`, where it has no error, leaves no file at the paths that are `d` or inside it, and
-- `Copy` from a source to a file just created gives it the content that the source then has.
pub record Disk : Type 1 where
  pub State : Type 0
  pub content : State → GoString → Option Bytes
  pub join : List GoString → GoString
  pub base : GoString → GoString
  pub abs : GoString → Result GoString
  pub rel : GoString → GoString → Result GoString
  pub is_abs : GoString → Bool
  pub is_inside : GoString → GoString → Bool
  pub mkdir_all : GoString → Run State (Unit {0})
  pub remove_all : GoString → Run State (Unit {0})
  pub os_write_file : GoString → Bytes → Run State (Unit {0})
  pub open_file : GoString → Run State (Unit {0})
  pub create : GoString → Run State (Unit {0})
  pub io_copy : GoString → GoString → Run State ℕ
  pub sync : GoString → Run State (Unit {0})
  pub remove-inside :
      (s s' : State) (d p : GoString)
      → remove_all d s ≡ (ok tt, s')
      → is_inside d p ≡ true
      → content s' p ≡ none
  pub mkdir-content :
      (s s' : State) (d p : GoString) → mkdir_all d s ≡ (ok tt, s') → content s' p ≡ content s p
  pub write-own :
      (s s' : State) (p : GoString) (b : Bytes)
      → os_write_file p b s ≡ (ok tt, s')
      → content s' p ≡ some b
  pub open-content :
      (s s' : State) (f p : GoString) → open_file f s ≡ (ok tt, s') → content s' p ≡ content s p
  pub create-own : (s s' : State) (p : GoString) → create p s ≡ (ok tt, s') → content s' p ≡ some []
  pub create-other :
      (s s' : State) (f p : GoString)
      → create f s ≡ (ok tt, s')
      → p ≢ f
      → content s' p ≡ content s p
  pub copy-own :
      (s s' : State) (dst src : GoString) (n : ℕ)
      → io_copy dst src s ≡ (ok n, s')
      → content s' dst ≡ content s src
  pub copy-other :
      (s s' : State) (dst src p : GoString) (n : ℕ)
      → io_copy dst src s ≡ (ok n, s')
      → p ≢ dst
      → content s' p ≡ content s p
  pub sync-content :
      (s s' : State) (f p : GoString) → sync f s ≡ (ok tt, s') → content s' p ≡ content s p

-- `strings.HasPrefix(s, "..")`
abbrev pub has_dots : GoString → Bool
has_dots [] = false
has_dots (c ∷ []) = false
has_dots (c ∷ d ∷ s) = c == 46 && d == 46

module _ (disk : Disk) where
  open disk use {
    State, join, base, abs, rel, is_abs, mkdir_all, os_write_file, create, io_copy, sync,
  }

  -- `fmt.Errorf("could not create directory %q: %w", dir, err)`
  abbrev not_created : GoString → Result (Unit {0}) → Result (Unit {0})
  not_created dir (ok u) = ok u
  not_created dir (err e) = err (wrap "could not create directory %q: %w" (dir ∷ []) e)
  not_created dir (panic e) = panic e

  abbrev make_dir : GoString → Run State (Unit {0})
  make_dir dir s = (not_created dir (mkdir_all dir s).0, (mkdir_all dir s).1)

  unfoldable pub write_file : GoString → GoString → Bytes → Run State (Unit {0})
  write_file file dir contents = do make_dir dir; os_write_file file contents

  -- The deferred `Close` calls drop their errors.
  unfoldable pub copy_file : GoString → GoString → Run State ℕ
  copy_file src dst_dir = do
    let dst = join (dst_dir ∷ base src ∷ [])
    disk.open_file src
    create dst
    n ← io_copy dst src
    sync dst
    pure n

  abbrev inside : Result GoString → Result Bool
  inside (ok relative_path) = ok (not (has_dots relative_path) && not (is_abs relative_path))
  inside (err e) = err e
  inside (panic e) = panic e

  abbrev relative : Result GoString → Result GoString → Result GoString
  relative (ok abs_src) (ok abs_dst_dir) = rel abs_dst_dir abs_src
  relative (ok abs_src) (err e) = err e
  relative (ok abs_src) (panic e) = panic e
  relative (err e) r = err e
  relative (panic e) r = panic e

  unfoldable pub is_sub_dir : GoString → GoString → Result Bool
  is_sub_dir src dst_dir = inside (relative (abs src) (abs dst_dir))

  -- `if err != nil || yes { continue }`
  abbrev pub copy_unless : Result Bool → GoString → GoString → Run State (Unit {0})
  copy_unless (ok true) file dir = pure tt
  copy_unless (ok false) file dir = do _ ← copy_file file dir; pure tt
  copy_unless (err e) file dir = pure tt
  copy_unless (panic e) file dir = lift (panic e)

  unfoldable pub copy_one : GoString → GoString → Run State (Unit {0})
  copy_one dir file = copy_unless (is_sub_dir file dir) file dir

  -- The inner loop, over the gentx files.
  unfoldable pub copy_files : GoString → List GoString → Run State (Unit {0})
  copy_files dir [] = pure tt
  copy_files dir (file ∷ files) = do copy_one dir file; copy_files dir files

  -- The outer loop, over the directories of the nodes.
  unfoldable pub copy_to_dirs : List GoString → List GoString → Run State (Unit {0})
  copy_to_dirs [] files = pure tt
  copy_to_dirs (dir ∷ dirs) files = do copy_files dir files; copy_to_dirs dirs files
