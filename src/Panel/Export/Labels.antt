-- ===== src/Panel/Export/Labels.antt =====
-- What an export names, and whom it leaves out.
use libersuite_panel.Prelude.{◌≡◌, refl, none, some, [], ◌++◌}
use libersuite_panel.Text.{Text}
use libersuite_panel.Client.{Client}
use libersuite_panel.Database.{Database, IsLawful}
use libersuite_panel.Panel.Clients.{success, remove_client}
use libersuite_panel.Panel.Clients.Effects.{remove_client_gone}
use libersuite_panel.Panel.Export.{Codecs, Flags, Exported, ssh_prefix, exported, export_command}

module _ (C : Codecs) (D : Database) (username : Text) (f : Flags) (s : D.State) where
  -- With no label given, the fragment of the exported address has the prefix "SSH " twice.
  pub default_label_doubled :
      (client : Client)
      → D.find_first s username ≡ some client
      → f.label ≡ []
      → (e : Exported) × (export_command C D username f s ≡ some e)
        × (e.ssh_url.fragment ≡ ssh_prefix ++ (ssh_prefix ++ username))
  unfolding export_command
  default_label_doubled client e l = (exported C client username f, rw e refl, rw l refl)

  -- A client that was removed is exported no more.
  pub removed_not_exported :
      (L : IsLawful D) (t : D.State)
      → remove_client D username s ≡ (t, success)
      → export_command C D username f t ≡ none
  unfolding export_command
  removed_not_exported L t h = rw (remove_client_gone D L username s t h) refl
