-- ===== src/Crypto/Pair.antt =====
-- What the files are after a key pair has been made.
use libersuite_panel.Prelude.{
  ℕ, ◌+◌, ◌≡◌, ◌≢◌, refl, sym, ap, ◌∙◌, Option, none, some, [], ◌∷◌, length, length-append,
  text_eq_iff, text_eq_refl, arith,
}
use libersuite_panel.Prelude.Int.{ℤ}
use libersuite_panel.Text.{Text}
use libersuite_panel.Crypto.Calls.{
  File, Disk, Outcome, done, cut, Error, Result, ok, err, M, continue, given, next_outcome, put,
  with_files, call, mkdir_all, truncated, open_file, written, write_call, write_file, key_failed,
  open_failed, encode_failed, marshal_failed, directory_failed,
}
use libersuite_panel.Crypto.{Keys, public_path, or_default, generate_rsa_key_pair}

-- The parts of a sequence that succeeds.
pub after {ℓ} :
    {A B : Type 0} {b : B} {d' : Disk} {C : Type ℓ} (r : Result A × Disk) (f : A → M B)
    → continue r f ≡ (ok b, d')
    → ((a : A) (d1 : Disk) → r ≡ (ok a, d1) → f a d1 ≡ (ok b, d') → C)
    → C
after (ok a, d) f h k = k a d refl h
after (err e, d) f h k = absurd (cc)

given_ok :
    {A : Type 0} (o : Option A) (e : Error) (d d' : Disk) (a : A)
    → given o e d ≡ (ok a, d')
    → (o ≡ some a) × (d' ≡ d)
given_ok none e d d' a h = cc
given_ok (some b) e d d' a h = ground arith

pub call_ok :
    (o : Outcome) (e : Error) (files : Text → Option File) (d d' : Disk)
    → call o e files d ≡ (ok tt, d')
    → d' ≡ with_files files d
call_ok done e files d d' h = sym (ap (λ r. r.1) h)
call_ok (cut n) e files d d' h = cc

write_ok :
    (o : Outcome) (path bytes : Text) (e : Error) (d d' : Disk)
    → write_call o path bytes e d ≡ (ok tt, d')
    → d' ≡ with_files (put path (written (d.files path) bytes) d.files) d
write_ok done path bytes e d d' h = sym (ap (λ r. r.1) h)
write_ok (cut n) path bytes e d d' h = cc

pub put_same :
    (path : Text) (f : Option File) (files : Text → Option File) → put path f files path ≡ f
put_same path f files = rw (text_eq_refl path) refl

pub put_other :
    (path p : Text) (f : Option File) (files : Text → Option File)
    → p ≢ path
    → put path f files p ≡ files p
put_other path p f files h = ground (arith, text_eq_iff p path)

public_path_longer : (key_path : Text) → length (public_path key_path) ≡ length key_path + 4
public_path_longer key_path = length-append key_path (b'.' ∷ b'p' ∷ b'u' ∷ b'b' ∷ [])

pub public_path_other : (key_path : Text) → public_path key_path ≢ key_path
public_path_other key_path h = omega (arith, public_path_longer key_path, ap (length {0}) h)

-- The mode of a file after an open: its own, or the one asked for.
abbrev pub mode_after : Option File → ℕ → ℕ
mode_after none mode = mode
mode_after (some f) mode = f.mode

-- A file that was opened and written in full holds just the bytes.
abbrev pub full : Option File → ℕ → Text → File
full f mode bytes = record { content = bytes; mode = mode_after f mode }

written-full :
    (f : Option File) (mode : ℕ) (bytes : Text)
    → written (some (truncated f mode)) bytes ≡ some (full f mode bytes)
written-full none mode bytes = refl
written-full (some f) mode bytes = refl

-- One file opened and written.
abbrev Written : Text → Text → ℕ → Disk → Disk → Type 0
Written path bytes mode d d' =
    (d'.files path ≡ some (full (d.files path) (d.masked mode) bytes))
    × ((p : Text) → p ≢ path → d'.files p ≡ d.files p)
    × (d'.masked ≡ d.masked)

module _ (path bytes : Text) (mode : ℕ) (d d1 d2 : Disk) where
  opened-Written :
      open_file path mode open_failed d ≡ (ok tt, d1)
      → write_file path bytes encode_failed d1 ≡ (ok tt, d2)
      → Written path bytes mode d d2
  unfolding open_file write_file
  opened-Written h k =
      let e1 = call_ok (next_outcome d.plan) open_failed _ d d1 h in
      let e2 = write_ok (next_outcome d1.plan) path bytes encode_failed d1 d2 k in
      let opened = ap (λ x. x.files path) e1 ∙ put_same path _ d.files in
      (
        ap (λ x. x.files path) e2
            ∙ put_same path _ d1.files
            ∙ ap (λ f. written f bytes) opened
            ∙ written-full (d.files path) (d.masked mode) bytes,
        λ p other.
            ap (λ x. x.files p) e2
            ∙ put_other path p _ d1.files other
            ∙ ap (λ x. x.files p) e1
            ∙ put_other path p _ d.files other,
        ap (λ x. x.masked) e2 ∙ ap (λ x. x.masked) e1,
      )

module _ (K : Keys) (key_path : Text) (bit_size : ℤ) where
  mkdir_files :
      (d d1 : Disk)
      → mkdir_all directory_failed d ≡ (ok tt, d1)
      → (d1.files ≡ d.files) × (d1.masked ≡ d.masked)
  unfolding mkdir_all
  mkdir_files d d1 h =
      let e = call_ok (next_outcome d.plan) directory_failed d.files d d1 h in
      (ap (λ x. x.files) e, ap (λ x. x.masked) e)

  -- What a pair on the disk is: a key and its public part, each in full in its file, and no other file touched.
  abbrev pub NewPair : Disk → Disk → K.Key → Text → Type 0
  NewPair d d' key public =
      (K.generate_key (or_default bit_size) ≡ some key)
      × (K.marshal_public key ≡ some public)
      × (d'.files key_path ≡ some (full (d.files key_path) (d.masked 0o600) (K.private_pem key)))
      × (d'.files (public_path key_path)
          ≡ some (full (d.files (public_path key_path)) (d.masked 0o644) (K.public_pem public)))
      × ((p : Text) → p ≢ key_path → p ≢ public_path key_path → d'.files p ≡ d.files p)

  assembled :
      (key : K.Key) (public : Text) (d d1 d3 d' : Disk)
      → K.generate_key (or_default bit_size) ≡ some key
      → K.marshal_public key ≡ some public
      → (d1.files ≡ d.files) × (d1.masked ≡ d.masked)
      → Written key_path (K.private_pem key) 0o600 d1 d3
      → Written (public_path key_path) (K.public_pem public) 0o644 d3 d'
      → NewPair d d' key public
  assembled key public d d1 d3 d' made marshalled (f1, m1) (w3, o3, m3) (w5, o5, m5) =
      let other = public_path_other key_path in
      (
        made,
        marshalled,
        o5 key_path (λ e. other (sym e)) ∙ w3 ∙ rw (f1, m1) refl,
        w5 ∙ rw (m3, o3 (public_path key_path) other, f1, m1) refl,
        λ p a b. o5 p b ∙ o3 p a ∙ ap (λ f. f p) f1,
      )

  -- Making a key pair that succeeds leaves the two texts of one new key in the two files, in full and with nothing
  -- of what the files held before; a file that was there keeps its mode, a new one has mode 0600 for the
  -- private and 0644 for the public key, less the umask; no other file changes.
  pub generate_rsa_key_pair_ok :
      (d d' : Disk)
      → generate_rsa_key_pair K key_path bit_size d ≡ (ok tt, d')
      → (key : K.Key) × (public : Text) × NewPair d d' key public
  unfolding generate_rsa_key_pair
  generate_rsa_key_pair_ok d d' h =
      after (given (K.generate_key (or_default bit_size)) key_failed d) _ h λ key d0 h0 k0.
        after (mkdir_all directory_failed d0) _ k0 λ _ d1 h1 k1.
          after (open_file key_path 0o600 open_failed d1) _ k1 λ _ d2 h2 k2.
            after (write_file key_path (K.private_pem key) encode_failed d2) _ k2 λ _ d3 h3 k3.
              after (given (K.marshal_public key) marshal_failed d3) _ k3 λ public d4 h4 k4.
                after (open_file (public_path key_path) 0o644 open_failed d4) _ k4 λ _ d5 h5 k5.
                  let (made, e0) = given_ok _ key_failed d d0 key h0 in
                  let (marshalled, e4) = given_ok _ marshal_failed d3 d4 public h4 in
                  (
                    key,
                    public,
                    assembled key public d d1 d3 d' made marshalled (mkdir_files d d1 (rw e0 at h1))
                        (opened-Written key_path (K.private_pem key) 0o600 d1 d2 d3 h2 h3)
                        (opened-Written (public_path key_path) (K.public_pem public) 0o644 d3 d5 d'
                          (rw e4 at h5) k5),
                  )
