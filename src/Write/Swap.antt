-- ===== src/Write/Swap.antt =====
-- grammar/c/wok_write.c: what `wok_write_atomic` leaves in the file and in the temporary file.
use wokml.Prelude.{ℕ, ◌≡◌, ◌⊎◌, Bool, false, Option, none, some, List, length}
use wokml.Write.{
  WokFileStamp, WokWriteResult, write_ok, write_unchanged, write_moved, write_failed, FileSystem,
  file_stamp, write_permitted, byte_hash, temp_path,
}
use wokml.Write.Files.{IsLawful, Leave}

-- The text has the hash and the size that a stamp says.
pub record Matches (stamp : WokFileStamp) (text : List ℕ) : Type 0 where
  pub hash : byte_hash text ≡ stamp.hash
  pub size : length text ≡ stamp.size

-- What a run that started in `s` comes to.
module _ (fs : FileSystem) (content : fs.State → List ℕ → Option (List ℕ)) (path bytes : List ℕ)
    (at_read : WokFileStamp) (theirs : Option (List ℕ)) (named : Bool) (s : fs.State) where
  -- A call of the run failed in a state.
  pub data Refused : Type 0 where
    no_memory : named ≡ false → Refused
    create : (s1 : fs.State) → (fs.create s1 (temp_path path)).0 ≡ false → Refused
    put : (s1 : fs.State) → (fs.put s1 (temp_path path) bytes).0 ≡ false → Refused
    rename : (s1 : fs.State) → (fs.rename s1 (temp_path path) path).0 ≡ false → Refused

  -- The file is as it was or as the others left it, and the temporary file is as it was or gone.
  pub record Untouched (s2 : fs.State) : Type 0 where
    pub file : (content s2 path ≡ content s path) ⊎ (content s2 path ≡ theirs)
    pub temporary :
        (content s2 (temp_path path) ≡ none)
        ⊎ (content s2 (temp_path path) ≡ content s (temp_path path))

  pub data Outcome : WokWriteResult × fs.State → Type 0 where
    replaced :
        {s2 : fs.State} {old : List ℕ}
        → theirs ≡ some old
        → Matches at_read old
        → content s2 path ≡ some bytes
        → content s2 (temp_path path) ≡ none
        → Outcome (write_ok, s2)
    unchanged :
        {old : List ℕ}
        → content s path ≡ some old
        → Matches at_read old
        → byte_hash old ≡ byte_hash bytes
        → length old ≡ length bytes
        → Outcome (write_unchanged, s)
    moved :
        {s1 s2 : fs.State}
        → (content s1 path ≡ content s path) ⊎ (content s1 path ≡ theirs)
        → write_permitted at_read (file_stamp fs s1 path) ≡ false
        → Untouched s2
        → Outcome (write_moved, s2)
    failed : {s2 : fs.State} → Refused → Untouched s2 → Outcome (write_failed, s2)

module _ (fs : FileSystem) (content : fs.State → List ℕ → Option (List ℕ))
    (lawful : IsLawful fs content) (meanwhile : fs.State → fs.State) (path bytes : List ℕ)
    (at_read : WokFileStamp) (theirs : Option (List ℕ)) (named : Bool) (s : fs.State)
    (leave : Leave fs content meanwhile path (temp_path path) (content s path) theirs) where
  abbrev End : WokWriteResult × fs.State → Type 0
  End r = Outcome fs content path bytes at_read theirs named s r
