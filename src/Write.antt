-- ===== src/Write.antt =====
-- grammar/c/wok_write.c: the hash of a file's bytes, the stamp of a file, and the replacement of a file.
-- The calls of the file system are an interface over an unknown state.
pub mod Hash
pub mod Files
pub mod Swap
mod Tests
use wokml.Prelude.{
  ℕ, ◌*◌, ◌%◌, Bool, true, false, not, ◌&&◌, ◌||◌, Option, none, some, List, [], ◌∷◌, ◌++◌, ◌==◌,
  if◌then◌else◌, length, bit_xor,
}

-- One byte of the hash, `h ^= b; h *= 0x100000001B3`.
abbrev pub hash_step : (h b : ℕ) → ℕ
hash_step h b = bit_xor h b * 0x100000001B3 % 18446744073709551616

unfoldable pub hash_from : ℕ → List ℕ → ℕ
hash_from h [] = h
hash_from h (b ∷ bs) = hash_from (hash_step h b) bs

abbrev pub hash_basis : ℕ
hash_basis = 0xCBF29CE484222325

abbrev pub byte_hash : List ℕ → ℕ
byte_hash bytes = hash_from hash_basis bytes

pub record WokFileStamp : Type 0 where
  pub hash : ℕ
  pub size : ℕ
  pub valid : Bool

pub data WokWriteResult : Type 0 where
  write_ok write_unchanged write_moved write_failed : WokWriteResult

unfoldable pub write_permitted : (at_read now : WokFileStamp) → Bool
write_permitted at_read now =
    if not at_read.valid || not now.valid
    then false
    else at_read.hash == now.hash && at_read.size == now.size

-- The calls that `wok_write_atomic` makes, and what they do to the files. A call that can fail answers
-- whether it did not.
pub record FileSystem : Type 1 where
  pub State : Type 0
  -- What `stat`, `fopen` and `fread` give of a file, if none of them fails.
  pub read : State → (path : List ℕ) → Option (List ℕ)
  -- `fopen` to write.
  pub create : State → (path : List ℕ) → Bool × State
  -- `fwrite` and `fclose`.
  pub put : State → (path bytes : List ℕ) → Bool × State
  -- `stat` of one file, and `chmod` of the other.
  pub copy_mode : State → (path to : List ℕ) → State
  pub rename : State → (path to : List ℕ) → Bool × State
  pub unlink : State → (path : List ℕ) → State

-- `wok_file_stamp`, less the times.
unfoldable pub stamp_of : Option (List ℕ) → WokFileStamp
stamp_of none = record { hash = 0; size = 0; valid = false }
stamp_of (some bytes) = record { hash = byte_hash bytes; size = length bytes; valid = true }

abbrev pub file_stamp : (fs : FileSystem) → fs.State → (path : List ℕ) → WokFileStamp
file_stamp fs s path = stamp_of (fs.read s path)

-- The file has the bytes that are to be written.
unfoldable pub is_canonical : WokFileStamp → List ℕ → Bool
is_canonical now bytes = now.size == length bytes && byte_hash bytes == now.hash

-- `.wokfmt.tmp`
abbrev pub temp_suffix : List ℕ
temp_suffix = 46 ∷ 119 ∷ 111 ∷ 107 ∷ 102 ∷ 109 ∷ 116 ∷ 46 ∷ 116 ∷ 109 ∷ 112 ∷ []

abbrev pub temp_path : List ℕ → List ℕ
temp_path path = path ++ temp_suffix

-- Other programs change the files by `meanwhile` before the last check.
module _ (fs : FileSystem) (meanwhile : fs.State → fs.State) (path bytes : List ℕ)
    (at_read : WokFileStamp) where
  -- Behind the rename.
  unfoldable pub renamed : Bool × fs.State → WokWriteResult × fs.State
  renamed (true, s) = (write_ok, s)
  renamed (false, s) = (write_failed, fs.unlink s (temp_path path))

  -- The last check before the rename.
  unfoldable pub swap : fs.State → WokWriteResult × fs.State
  swap s =
      if not (write_permitted at_read (file_stamp fs s path))
      then (write_moved, fs.unlink s (temp_path path))
      else renamed (fs.rename s (temp_path path) path)

  -- Behind the write of the temporary file.
  unfoldable pub written : Bool × fs.State → WokWriteResult × fs.State
  written (true, s) = swap (meanwhile (fs.copy_mode s path (temp_path path)))
  written (false, s) = (write_failed, fs.unlink s (temp_path path))

  -- Behind the open of the temporary file.
  unfoldable pub opened : Bool × fs.State → WokWriteResult × fs.State
  opened (true, s) = written (fs.put s (temp_path path) bytes)
  opened (false, s) = (write_failed, s)

  -- `wok_write_atomic`; `named` tells whether there is memory for the name of the temporary file.
  unfoldable pub write_atomic : (named : Bool) → fs.State → WokWriteResult × fs.State
  write_atomic named s =
      if not (write_permitted at_read (file_stamp fs s path))
      then (write_moved, s)
      else if is_canonical (file_stamp fs s path) bytes
      then (write_unchanged, s)
      else if not named
      then (write_failed, s)
      else opened (fs.create s (temp_path path))
