-- ===== src/Write/Files.antt =====
-- grammar/c/wok_write.c: what the replacement of a file relies on of the file system.
use wokml.Prelude.{ℕ, ◌≡◌, ◌≢◌, true, false, Option, none, some, List}
use wokml.Write.{FileSystem}

-- `content` is what the directory holds under each path. The calls do what POSIX says of it: those on
-- one path leave the others, a call that fails before or at the change of a name changes no name.
pub record IsLawful (fs : FileSystem) (content : fs.State → List ℕ → Option (List ℕ)) : Type 0 where
  pub read-content : (s : fs.State) (p b : List ℕ) → fs.read s p ≡ some b → content s p ≡ some b
  pub create-fails :
      (s : fs.State) (t p : List ℕ)
      → (fs.create s t).0 ≡ false
      → content (fs.create s t).1 p ≡ content s p
  pub create-elsewhere :
      (s : fs.State) (t p : List ℕ) → p ≢ t → content (fs.create s t).1 p ≡ content s p
  pub put-elsewhere :
      (s : fs.State) (t b p : List ℕ) → p ≢ t → content (fs.put s t b).1 p ≡ content s p
  pub put-there :
      (s : fs.State) (t b : List ℕ) → (fs.put s t b).0 ≡ true → content (fs.put s t b).1 t ≡ some b
  pub copy_mode-content :
      (s : fs.State) (f t p : List ℕ) → content (fs.copy_mode s f t) p ≡ content s p
  pub rename-fails :
      (s : fs.State) (t p q : List ℕ)
      → (fs.rename s t p).0 ≡ false
      → content (fs.rename s t p).1 q ≡ content s q
  pub rename-to :
      (s : fs.State) (t p : List ℕ)
      → t ≢ p
      → (fs.rename s t p).0 ≡ true
      → content (fs.rename s t p).1 p ≡ content s t
  pub rename-from :
      (s : fs.State) (t p : List ℕ)
      → t ≢ p
      → (fs.rename s t p).0 ≡ true
      → content (fs.rename s t p).1 t ≡ none
  pub unlink-elsewhere :
      (s : fs.State) (t p : List ℕ) → p ≢ t → content (fs.unlink s t) p ≡ content s p
  pub unlink-there : (s : fs.State) (t : List ℕ) → content (fs.unlink s t) t ≡ none

-- What other programs do before the last check: where the file holds `before` they leave `theirs` in
-- it, and the temporary file they leave as it is.
pub record Leave (fs : FileSystem) (content : fs.State → List ℕ → Option (List ℕ))
    (meanwhile : fs.State → fs.State) (path temp : List ℕ) (before theirs : Option (List ℕ))
    : Type 0 where
  pub target : (s : fs.State) → content s path ≡ before → content (meanwhile s) path ≡ theirs
  pub temporary : (s : fs.State) → content (meanwhile s) temp ≡ content s temp
