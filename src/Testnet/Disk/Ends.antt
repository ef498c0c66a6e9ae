-- ===== src/Testnet/Disk/Ends.antt =====
-- The copying ends without an error where none of its calls has one.
use chain_rice.Common.{◌≡◌, refl, GoString, Bytes, Bool, true, false, List, [], ◌∷◌}
use chain_rice.Common.Result.{Result, ok}
use chain_rice.Common.Run.Total.{Total, pure-Total, bind-Total}
use chain_rice.Testnet.Disk.{
  Disk, write_file, copy_file, is_sub_dir, copy_unless, copy_one, copy_files, copy_to_dirs,
}

-- A call that gives a value.
abbrev pub Gives : {A : Type 0} → Result A → Type 0
Gives {A} r = (a : A) × (r ≡ ok a)

-- No call on files has an error, and paths can be compared.
pub record DiskWorks (disk : Disk) : Type 0 where
  pub mkdir_all : (d : GoString) → Total (disk.mkdir_all d)
  pub os_write_file : (p : GoString) (b : Bytes) → Total (disk.os_write_file p b)
  pub open_file : (p : GoString) → Total (disk.open_file p)
  pub create : (p : GoString) → Total (disk.create p)
  pub io_copy : (dst src : GoString) → Total (disk.io_copy dst src)
  pub sync : (p : GoString) → Total (disk.sync p)
  pub is_sub_dir : (f d : GoString) → Gives (is_sub_dir disk f d)

module _ (disk : Disk) (works : DiskWorks disk) where
  open disk use {State}

  pub write_file-Total : (f d : GoString) (b : Bytes) → Total (write_file disk f d b)
  unfolding write_file
  write_file-Total f d b =
      bind-Total _ _
        (record { ends = λ s. let (u, t, e) = (works.mkdir_all d).ends s in (u, t, rw e refl) })
        (λ _. works.os_write_file f b)

  copy_file-Total : (src dir : GoString) → Total (copy_file disk src dir)
  unfolding copy_file
  copy_file-Total src dir = bind-Total _ _ (works.open_file src) (λ _.
      bind-Total _ _ (works.create _) (λ _.
        bind-Total _ _ (works.io_copy _ src)
          (λ n. bind-Total _ _ (works.sync _) (λ _. pure-Total n))))

  copy_one-Total : (dir file : GoString) → Total (copy_one disk dir file)
  unfolding copy_one
  copy_one-Total dir file = let (b, e) = works.is_sub_dir file dir in rw e (cases b)
    where
      cases : (b : Bool) → Total (copy_unless disk (ok b) file dir)
      cases true = pure-Total tt
      cases false = bind-Total _ _ (copy_file-Total file dir) (λ _. pure-Total tt)

  copy_files-Total : (dir : GoString) (files : List GoString) → Total (copy_files disk dir files)
  unfolding copy_files
  copy_files-Total dir [] = pure-Total tt
  copy_files-Total dir (file ∷ files) =
      bind-Total _ _ (copy_one-Total dir file) (λ _. copy_files-Total dir files)

  pub copy_to_dirs-Total : (dirs files : List GoString) → Total (copy_to_dirs disk dirs files)
  unfolding copy_to_dirs
  copy_to_dirs-Total [] files = pure-Total tt
  copy_to_dirs-Total (dir ∷ dirs) files =
      bind-Total _ _ (copy_files-Total dir files) (λ _. copy_to_dirs-Total dirs files)
