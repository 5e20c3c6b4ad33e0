-- ===== src/Crypto/Failures.antt =====
-- What a failure leaves behind.
use libersuite_panel.Prelude.{
  ℕ, ◌≡◌, ◌≢◌, refl, sym, ap, ◌∙◌, Option, none, some, Option-cases, inl, inr, List, [], ◌∷◌, take,
}
use libersuite_panel.Prelude.Int.{ℤ}
use libersuite_panel.Text.{Text}
use libersuite_panel.Crypto.Calls.{
  File, Disk, Outcome, done, cut, ok, err, key_failed, encode_failed, mkdir_all, open_file,
  write_file, remove_file, remove_failed, stat, put, truncated, written,
}
use libersuite_panel.Crypto.{
  Keys, public_path, or_default, generate_rsa_key_pair, ensure_rsa_key_pair,
  regenerate_rsa_key_pair,
}
use libersuite_panel.Crypto.Pair.{mode_after, put_same, put_other, public_path_other}

abbrev pub disk : (Text → Option File) → (ℕ → ℕ) → List Outcome → Disk
disk files masked plan = record { files = files; masked = masked; plan = plan }

written_part :
    (f : Option File) (mode : ℕ) (bytes : Text)
    → written (some (truncated f mode)) bytes
      ≡ some (record { content = bytes; mode = mode_after f mode })
written_part none mode bytes = refl
written_part (some f) mode bytes = refl

remove_run :
    (masked : ℕ → ℕ) (path : Text) (fs : Text → Option File)
    → (fs' : Text → Option File) × (remove_file path remove_failed (disk fs masked [])
        ≡ (ok tt, disk fs' masked []))
      × (fs' path ≡ none)
      × ((p : Text) → p ≢ path → fs' p ≡ fs p)
unfolding remove_file
remove_run masked path fs = elim (Option-cases (fs path)) [
  | inl e ↦ (fs, rw e refl, e, λ p other. refl)
  | inr (f, e) ↦ (
    put path none fs,
    rw e refl,
    put_same path none fs,
    λ p other. put_other path p none fs other,
  )
]

module _ (K : Keys) (key_path : Text) (bit_size : ℤ) (files : Text → Option File)
    (masked : ℕ → ℕ) where
  -- The disk on which the private key was cut off after n bytes.
  abbrev cut_files : K.Key → ℕ → Text → Option File
  cut_files key n =
      let opened = put key_path (some (truncated (files key_path) (masked 0o600))) files in
      put key_path (written (opened key_path) (take n (K.private_pem key))) opened

  cut_run :
      (key : K.Key) (n : ℕ)
      → K.generate_key (or_default bit_size) ≡ some key
      → generate_rsa_key_pair K key_path bit_size (disk files masked (done ∷ done ∷ cut n ∷ []))
        ≡ (err encode_failed, disk (cut_files key n) masked [])
  unfolding generate_rsa_key_pair mkdir_all open_file write_file
  cut_run key n made = rw made refl

  cut_file :
      (key : K.Key) (n : ℕ)
      → cut_files key n key_path
        ≡ some (record {
          content = take n (K.private_pem key);
          mode = mode_after (files key_path) (masked 0o600);
        })
  cut_file key n =
      let opened = put key_path (some (truncated (files key_path) (masked 0o600))) files in
      put_same key_path _ opened
      ∙ ap (λ f. written f (take n (K.private_pem key))) (put_same key_path _ files)
      ∙ written_part (files key_path) (masked 0o600) (take n (K.private_pem key))

  -- Making sure of a key where a file is there changes nothing.
  ensured :
      (fs : Text → Option File) (f : File)
      → fs key_path ≡ some f
      → ensure_rsa_key_pair K key_path bit_size (disk fs masked []) ≡ (ok tt, disk fs masked [])
  unfolding ensure_rsa_key_pair stat
  ensured fs f e = rw e refl

  -- When the write of a new private key stops after n bytes, the pair is not made, but the cut file stays and
  -- passes for a key: from then on making sure of a key succeeds and changes nothing.
  pub cut_key_kept :
      (key : K.Key) (n : ℕ)
      → K.generate_key (or_default bit_size) ≡ some key
      → let r =
          generate_rsa_key_pair K key_path bit_size
            (disk files masked (done ∷ done ∷ cut n ∷ [])) in
        (r.0 ≡ err encode_failed)
        × (r.1.files key_path
            ≡ some (record {
              content = take n (K.private_pem key);
              mode = mode_after (files key_path) (masked 0o600);
            }))
        × (ensure_rsa_key_pair K key_path bit_size r.1 ≡ (ok tt, r.1))
  cut_key_kept key n made =
      rw (cut_run key n made) (refl, cut_file key n, ensured (cut_files key n) _ (cut_file key n))

  -- A replacement whose new key cannot be made has removed the old pair already: no key is left.
  pub regenerate_rsa_key_pair_loses :
      K.generate_key (or_default bit_size) ≡ none
      → let r = regenerate_rsa_key_pair K key_path bit_size (disk files masked []) in
        (r.0 ≡ err key_failed)
        × (r.1.files key_path ≡ none)
        × (r.1.files (public_path key_path) ≡ none)
  unfolding regenerate_rsa_key_pair generate_rsa_key_pair
  regenerate_rsa_key_pair_loses none_made =
      let (f1, e1, n1, _) = remove_run masked key_path files in
      let (f2, e2, n2, o2) = remove_run masked (public_path key_path) f1 in
      rw (e1, e2, none_made) (refl, o2 key_path (λ e. public_path_other key_path (sym e)) ∙ n1, n2)
