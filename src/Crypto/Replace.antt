-- ===== src/Crypto/Replace.antt =====
-- What the files are after a key pair has been replaced.
use libersuite_panel.Prelude.{◌≡◌, ◌≢◌, refl, sym, ap, ◌∙◌, Option, none, some}
use libersuite_panel.Prelude.Int.{ℤ}
use libersuite_panel.Text.{Text}
use libersuite_panel.Crypto.Calls.{
  File, Disk, Outcome, done, cut, ok, next_outcome, put, with_files, remove_call, remove_file,
  remove_failed,
}
use libersuite_panel.Crypto.{Keys, public_path, or_default, regenerate_rsa_key_pair}
use libersuite_panel.Crypto.Pair.{
  after, put_same, put_other, public_path_other, NewPair, generate_rsa_key_pair_ok,
}

abbrev Removed : Text → Disk → Disk → Type 0
Removed path d d' =
    (d'.files path ≡ none)
    × ((p : Text) → p ≢ path → d'.files p ≡ d.files p)
    × (d'.masked ≡ d.masked)

call_gone :
    (o : Outcome) (f : Option File) (path : Text) (d d' : Disk)
    → d.files path ≡ f
    → remove_call o f path remove_failed d ≡ (ok tt, d')
    → Removed path d d'
call_gone o none path d d' e h =
    let q : d' ≡ with_files d.files d = sym (ap (λ r. r.1) h) in
    (ap (λ x. x.files path) q ∙ e, λ p other. ap (λ x. x.files p) q, ap (λ x. x.masked) q)
call_gone done (some f) path d d' e h =
    let q : d' ≡ with_files (put path none d.files) d = sym (ap (λ r. r.1) h) in
    (
      ap (λ x. x.files path) q ∙ put_same path none d.files,
      λ p other. ap (λ x. x.files p) q ∙ put_other path p none d.files other,
      ap (λ x. x.masked) q,
    )
call_gone (cut n) (some f) path d d' e h = absurd (cc)

removed :
    (path : Text) (d d' : Disk) → remove_file path remove_failed d ≡ (ok tt, d') → Removed path d d'
unfolding remove_file
removed path d d' h = call_gone (next_outcome d.plan) (d.files path) path d d' refl h

module _ (K : Keys) (key_path : Text) (bit_size : ℤ) where
  -- The two files of a new pair, made where there were none.
  abbrev pub FreshPair : Disk → Disk → K.Key → Text → Type 0
  FreshPair d d' key public =
      (K.generate_key (or_default bit_size) ≡ some key)
      × (K.marshal_public key ≡ some public)
      × (d'.files key_path ≡ some (record { content = K.private_pem key; mode = d.masked 0o600 }))
      × (d'.files (public_path key_path)
          ≡ some (record { content = K.public_pem public; mode = d.masked 0o644 }))
      × ((p : Text) → p ≢ key_path → p ≢ public_path key_path → d'.files p ≡ d.files p)

  fresh :
      (d d1 d2 d' : Disk) (key : K.Key) (public : Text)
      → Removed key_path d d1
      → Removed (public_path key_path) d1 d2
      → NewPair K key_path bit_size d2 d' key public
      → FreshPair d d' key public
  fresh d d1 d2 d' key public (n1, o1, m1) (n2, o2, m2) (made, marshalled, f, g, o) =
      let other = public_path_other key_path in
      (
        made,
        marshalled,
        f ∙ rw (o2 key_path (λ e. other (sym e)), n1, m2, m1) refl,
        g ∙ rw (n2, m2, m1) refl,
        λ p a b. o p a b ∙ o2 p b ∙ o1 p a,
      )

  -- A replacement that succeeds leaves a new pair, and with the modes 0600 and 0644 less the umask, whatever modes
  -- the old files had.
  pub regenerate_rsa_key_pair_ok :
      (d d' : Disk)
      → regenerate_rsa_key_pair K key_path bit_size d ≡ (ok tt, d')
      → (key : K.Key) × (public : Text) × FreshPair d d' key public
  unfolding regenerate_rsa_key_pair
  regenerate_rsa_key_pair_ok d d' h = after (remove_file key_path remove_failed d) _ h λ _ d1 h1 k1.
      after (remove_file (public_path key_path) remove_failed d1) _ k1 λ _ d2 h2 k2.
        let (key, public, pair) = generate_rsa_key_pair_ok K key_path bit_size d2 d' k2 in
        (
          key,
          public,
          fresh d d1 d2 d' key public (removed key_path d d1 h1)
              (removed (public_path key_path) d1 d2 h2) pair,
        )
