-- ===== src/Panel/Keys/Effects.antt =====
-- When the commands keep, replace and provide a key.
use libersuite_panel.Prelude.{◌≡◌, refl, sym, ap, ◌∙◌, Bool, true, false, Option, none, some}
use libersuite_panel.Prelude.Int.{ℤ}
use libersuite_panel.Text.{Text}
use libersuite_panel.Crypto.Calls.{
  File, Disk, Outcome, done, cut, key_already_exists, ok, err, found, next_outcome, stat,
  with_files,
}
use libersuite_panel.Crypto.{
  Keys, public_path, or_default, key_exists, generate_rsa_key_pair, regenerate_rsa_key_pair,
}
use libersuite_panel.Crypto.Pair.{generate_rsa_key_pair_ok}
use libersuite_panel.Crypto.Replace.{regenerate_rsa_key_pair_ok}
use libersuite_panel.Panel.Keys.{
  path_or, generate_checked, replace_or_make, make_unless, generate_command, host_key_step,
}

module _ (K : Keys) (default output : Text) (key_size : ℤ) where
  abbrev pub key_path : Text
  key_path = path_or default output

  -- Without force, a key that is found is never touched: the command ends with an error and every file is as it
  -- was.
  pub generate_command_refuses :
      (d : Disk) (f : File)
      → d.files key_path ≡ some f
      → next_outcome d.plan ≡ done
      → ((generate_command K default output key_size false d).0 ≡ err key_already_exists)
        × ((generate_command K default output key_size false d).1.files ≡ d.files)
  unfolding generate_command stat
  generate_command_refuses d f e o = rw (e, o) (refl, refl)

  -- Both files hold the two parts of one new key.
  abbrev pub HoldsPair : Disk → K.Key → Text → Type 0
  HoldsPair d key public =
      (K.generate_key (or_default key_size) ≡ some key)
      × (K.marshal_public key ≡ some public)
      × ((f : File) × (d.files key_path ≡ some f) × (f.content ≡ K.private_pem key))
      × ((f : File) × (d.files (public_path key_path) ≡ some f) × (f.content ≡ K.public_pem public))

  made :
      (d d' : Disk)
      → generate_rsa_key_pair K key_path key_size d ≡ (ok tt, d')
      → (key : K.Key) × (public : Text) × HoldsPair d' key public
  made d d' h =
      let (key, public, (made, marshalled, f, g, _)) =
        generate_rsa_key_pair_ok K key_path key_size d d' h in
      (key, public, (made, marshalled, (_, f, refl), (_, g, refl)))

  replaced :
      (d d' : Disk)
      → regenerate_rsa_key_pair K key_path key_size d ≡ (ok tt, d')
      → (key : K.Key) × (public : Text) × HoldsPair d' key public
  replaced d d' h =
      let (key, public, (made, marshalled, f, g, _)) =
        regenerate_rsa_key_pair_ok K key_path key_size d d' h in
      (key, public, (made, marshalled, (_, f, refl), (_, g, refl)))

  replaced_or_made :
      (r : Bool × Disk) (d' : Disk)
      → replace_or_make K r key_path key_size ≡ (ok tt, d')
      → (key : K.Key) × (public : Text) × HoldsPair d' key public
  replaced_or_made (true, d) d' h = replaced d d' h
  replaced_or_made (false, d) d' h = made d d' h

  checked :
      (force : Bool) (r : Bool × Disk) (d' : Disk)
      → generate_checked K force key_path key_size r ≡ (ok tt, d')
      → (key : K.Key) × (public : Text) × HoldsPair d' key public
  checked true (found, d) d' h = replaced_or_made (stat key_path d) d' h
  checked false (true, d) d' h = absurd (cc)
  checked false (false, d) d' h = made d d' h

  -- Whenever `keys generate` succeeds, with force or without, both files hold the parts of one new key.
  pub generate_command_ok :
      (force : Bool) (d d' : Disk)
      → generate_command K default output key_size force d ≡ (ok tt, d')
      → (key : K.Key) × (public : Text) × HoldsPair d' key public
  unfolding generate_command
  generate_command_ok force d d' h = checked force (key_exists K key_path d) d' h

  stat_found : (o : Outcome) (f : Option File) → found o f ≡ true → (g : File) × (f ≡ some g)
  stat_found done none h = absurd (cc)
  stat_found done (some f) h = (f, refl)
  stat_found (cut n) f h = absurd (cc)

  provided :
      (d : Disk) (there : Bool) (d' : Disk)
      → found (next_outcome d.plan) (d.files key_path) ≡ there
      → make_unless K (there, with_files d.files d) key_path key_size ≡ (ok tt, d')
      → (f : File) × (d'.files key_path ≡ some f)
  provided d true d' e h =
      let (f, g) = stat_found (next_outcome d.plan) (d.files key_path) e in
      (f, sym (ap (λ r. r.1.files key_path) h) ∙ g)
  provided d false d' e h =
      let (key, public, (_, _, (f, g, _), _)) = made (with_files d.files d) d' h in (f, g)

  -- Where the server command gets past its host key, there is a file at the path that it hands to the SSH server.
  pub host_key_step_ready :
      (regenerate_key : Bool) (d d' : Disk)
      → host_key_step K regenerate_key default output key_size d ≡ (ok tt, d')
      → (f : File) × (d'.files key_path ≡ some f)
  unfolding host_key_step stat
  host_key_step_ready true d d' h =
      let (key, public, (_, _, (f, g, _), _)) = replaced d d' h in (f, g)
  host_key_step_ready false d d' h =
      provided d (found (next_outcome d.plan) (d.files key_path)) d' refl h
