-- ===== src/Examples/Keys.antt =====
-- Key pairs, made and lost, on a disk that holds nothing but what they write.
use libersuite_panel.Prelude.{
  ℕ, ◌≡◌, refl, Option, none, some, [], ◌∷◌, take, text_eq, if◌then◌else◌,
}
use libersuite_panel.Prelude.Int.{pos}
use libersuite_panel.Text.{Text}
use libersuite_panel.Crypto.Calls.{
  File, Disk, done, cut, ok, err, encode_failed, mkdir_all, remove_file,
}
use libersuite_panel.Crypto.{
  Keys, generate_rsa_key_pair, ensure_rsa_key_pair, regenerate_rsa_key_pair,
}
use libersuite_panel.Crypto.Pair.{NewPair, generate_rsa_key_pair_ok}
use libersuite_panel.Crypto.Replace.{FreshPair, regenerate_rsa_key_pair_ok}
use libersuite_panel.Crypto.Failures.{disk, cut_key_kept}
use libersuite_panel.Examples.{al, pw}

-- Keys are numbers, and their text is one byte.
abbrev pub keys : Keys
keys = record {
  Key = ℕ;
  generate_key = λ bits. some 7;
  private_pem = λ k. k ∷ [];
  marshal_public = λ k. some (k ∷ []);
  public_pem = λ t. t;
}

abbrev pub no_files : Text → Option File
no_files path = none

-- An old key at the path "al", with mode 0644.
abbrev old_files : Text → Option File
old_files path = if text_eq path al then some (record { content = pw; mode = 0o644 }) else none

abbrev unmasked : ℕ → ℕ
unmasked mode = mode

abbrev pub empty_disk : Disk
empty_disk = disk no_files unmasked []

abbrev made : Disk
made = (generate_rsa_key_pair keys al (pos 0) empty_disk).1

made_ok : generate_rsa_key_pair keys al (pos 0) empty_disk ≡ (ok tt, made)
unfolding generate_rsa_key_pair mkdir_all
made_ok = refl

generate_rsa_key_pair_ok_example :
    (key : ℕ) × (public : Text) × NewPair keys al (pos 0) empty_disk made key public
generate_rsa_key_pair_ok_example = generate_rsa_key_pair_ok keys al (pos 0) empty_disk made made_ok

abbrev replaced : Disk
replaced = (regenerate_rsa_key_pair keys al (pos 0) (disk old_files unmasked [])).1

replaced_ok :
    regenerate_rsa_key_pair keys al (pos 0) (disk old_files unmasked []) ≡ (ok tt, replaced)
unfolding regenerate_rsa_key_pair remove_file mkdir_all text_eq
replaced_ok = refl

regenerate_rsa_key_pair_ok_example :
    (key : ℕ) × (public : Text) × FreshPair keys al
      (pos 0)
      (disk old_files unmasked [])
      replaced
      key
      public
regenerate_rsa_key_pair_ok_example =
    regenerate_rsa_key_pair_ok keys al (pos 0) (disk old_files unmasked []) replaced replaced_ok

cut_key_kept_example :
    let r =
      generate_rsa_key_pair keys al (pos 0) (disk no_files unmasked (done ∷ done ∷ cut 0 ∷ [])) in
    (r.0 ≡ err encode_failed)
    × (r.1.files al ≡ some (record { content = take 0 (7 ∷ []); mode = 0o600 }))
    × (ensure_rsa_key_pair keys al (pos 0) r.1 ≡ (ok tt, r.1))
cut_key_kept_example = cut_key_kept keys al (pos 0) no_files unmasked 7 0 refl
