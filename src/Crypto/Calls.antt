-- ===== src/Crypto/Calls.antt =====
-- The calls of package os that the program makes, over the files and a plan of how the calls to come end.
use libersuite_panel.Prelude.{
  Bool, true, false, ℕ, Option, none, some, List, [], ◌∷◌, ◌++◌, take, if◌then◌else◌, text_eq,
}
use libersuite_panel.Text.{Text}

pub record File : Type 0 where
  pub content : Text
  pub mode : ℕ

-- A call succeeds, or fails; a write that fails has written a part of its bytes.
pub data Outcome : Type 0 where
  done : Outcome
  cut : ℕ → Outcome

-- The files by path (none of the paths that the program is given is that of a directory), the bits that the umask leaves of a mode, and the outcomes of the calls to come;
-- past the end of the plan each call succeeds.
pub record Disk : Type 0 where
  pub files : Text → Option File
  pub masked : ℕ → ℕ
  pub plan : List Outcome

pub data Error : Type 0 where
  key_failed directory_failed open_failed encode_failed marshal_failed remove_failed : Error
  key_already_exists : Error

pub data Result {ℓ} (A : Type ℓ) : Type ℓ where
  ok : A → Result A
  err : Error → Result A

abbrev pub M : Type 0 → Type 0
M A = Disk → Result A × Disk

abbrev pub continue : {A B : Type 0} → Result A × Disk → (A → M B) → Result B × Disk
continue (ok a, d) f = f a d
continue (err e, d) f = (err e, d)

infixl 5 ◌>>=◌ ◌>>◌
abbrev pub ◌>>=◌ : {A B : Type 0} → M A → (A → M B) → M B
◌>>=◌ m f d = continue (m d) f

abbrev pub ◌>>◌ : {B : Type 0} → M (Unit {0}) → M B → M B
m >> k = m >>= λ _. k

abbrev pub pure : {A : Type 0} → A → M A
pure a d = (ok a, d)

-- A result of a call that does not touch the disk.
abbrev pub given : {A : Type 0} → Option A → Error → M A
given none e d = (err e, d)
given (some a) e d = (ok a, d)

abbrev pub next_outcome : List Outcome → Outcome
next_outcome [] = done
next_outcome (o ∷ plan) = o

abbrev pub later : List Outcome → List Outcome
later [] = []
later (o ∷ plan) = plan

abbrev pub put : Text → Option File → (Text → Option File) → Text → Option File
put path f files p = if text_eq p path then f else files p

abbrev pub with_files : (Text → Option File) → Disk → Disk
with_files files d = record d { files = files; plan = later d.plan }

-- A call that changes the files if it succeeds.
abbrev pub call : Outcome → Error → (Text → Option File) → M (Unit {0})
call done e files d = (ok tt, with_files files d)
call (cut n) e files d = (err e, with_files d.files d)

-- os.MkdirAll, of which only its error matters here.
unfoldable pub mkdir_all : Error → M (Unit {0})
mkdir_all e d = call (next_outcome d.plan) e d.files d

-- os.OpenFile with O_CREATE and O_TRUNC: a file that is there keeps its mode.
abbrev pub truncated : Option File → ℕ → File
truncated none mode = record { content = []; mode = mode }
truncated (some f) mode = record f { content = [] }

unfoldable pub open_file : Text → ℕ → Error → M (Unit {0})
open_file path mode e d =
    call (next_outcome d.plan) e
      (put path (some (truncated (d.files path) (d.masked mode))) d.files) d

-- pem.Encode to a file that was opened.
abbrev pub written : Option File → Text → Option File
written none bytes = none
written (some f) bytes = some (record f { content = f.content ++ bytes })

abbrev pub write_call : Outcome → Text → Text → Error → M (Unit {0})
write_call done path bytes e d =
    (ok tt, with_files (put path (written (d.files path) bytes) d.files) d)
write_call (cut n) path bytes e d =
    (err e, with_files (put path (written (d.files path) (take n bytes)) d.files) d)

unfoldable pub write_file : Text → Text → Error → M (Unit {0})
write_file path bytes e d = write_call (next_outcome d.plan) path bytes e d

-- os.Remove, with the program's test of the error: a file that is not there is no error.
abbrev pub remove_call : Outcome → Option File → Text → Error → M (Unit {0})
remove_call o none path e d = (ok tt, with_files d.files d)
remove_call o (some f) path e d = call o e (put path none d.files) d

unfoldable pub remove_file : Text → Error → M (Unit {0})
remove_file path e d = remove_call (next_outcome d.plan) (d.files path) path e d

-- os.Stat, without an error or with one.
abbrev pub found : Outcome → Option File → Bool
found done none = false
found done (some f) = true
found (cut n) f = false

unfoldable pub stat : Text → Disk → Bool × Disk
stat path d = (found (next_outcome d.plan) (d.files path), with_files d.files d)
