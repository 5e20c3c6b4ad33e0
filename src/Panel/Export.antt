-- ===== src/Panel/Export.antt =====
-- `client export` of cmd/panel/client.go: the addresses with which a client connects. What net/url, JSON,
-- base64 and x509 make of their arguments is left to the parameters.
pub mod Labels
use libersuite_panel.Prelude.{
  ℕ, Bool, true, false, ◌&&◌, not, Option, none, some, List, [], ◌∷◌, ◌++◌, ◌/◌, ◌%◌, ltb, ◌+◌, ◌-◌,
  if◌then◌else◌,
}
use libersuite_panel.Prelude.Int.{ℤ}
use libersuite_panel.Text.{Text, is_empty}
use libersuite_panel.Text.Decimal.{format_int}
use libersuite_panel.Client.{Client}
use libersuite_panel.Database.{Database}

-- The fields of the url.URL that generateSSHURL sets; its scheme is "ssh".
pub record SshUrl : Type 0 where
  pub username : Text
  pub password : Text
  pub host : Text
  pub raw_query : Text
  pub fragment : Text

-- The struct that generateDNSTTURL marshals; its address is "8.8.8.8".
pub record Dnstt : Type 0 where
  pub ps : Text
  pub ns : Text
  pub pubkey : Text
  pub user : Text
  pub pass : Text

-- The lines of the Slipstream block.
pub record Slipstream : Type 0 where
  pub domain : Text
  pub username : Text
  pub password : Text
  pub host : Text
  pub port : ℤ
  pub cert_sha256 : Option Text

pub record Flags : Type 0 where
  pub host : Text
  pub port : ℤ
  pub token : Text
  pub label : Text
  pub domain : Text
  pub pubkey : Text
  pub slipstream_domain : Text
  pub slipstream_cert : Text

pub record Exported : Type 0 where
  pub ssh_url : SshUrl
  pub dnstt_url : Option Text
  pub slipstream : Option Slipstream

-- "SSH " and "Dnstt "
abbrev pub ssh_prefix : Text
ssh_prefix = b'S' ∷ b'S' ∷ b'H' ∷ b' ' ∷ []

abbrev pub dnstt_prefix : Text
dnstt_prefix = b'D' ∷ b'n' ∷ b's' ∷ b't' ∷ b't' ∷ b' ' ∷ []

-- Of a token or a label that is empty nothing is set.
unfoldable pub generate_ssh_url : Text → Text → Text → ℤ → Text → Text → SshUrl
generate_ssh_url username password host port token label = record {
  username = username;
  password = password;
  host = host ++ (b':' ∷ format_int port);
  raw_query = token;
  fragment = if is_empty label then [] else ssh_prefix ++ label;
}

abbrev pub hex_digit : ℕ → ℕ
hex_digit n = if ltb n 10 then b'0' + n else b'a' + n - 10

-- %x
unfoldable pub hex : Text → Text
hex [] = []
hex (b ∷ bs) = hex_digit (b / 16) ∷ hex_digit (b % 16) ∷ hex bs

-- What the standard library does: json.Marshal, base64, reading a file, pem.Decode, x509.ParseCertificate
-- with the raw bytes, and SHA-256.
pub record Codecs : Type 0 where
  pub marshal : Dnstt → Option Text
  pub base64 : Text → Text
  pub read_file : Text → Option Text
  pub pem_block : Text → Option Text
  pub certificate : Text → Option Text
  pub sha256 : Text → Text

module _ (C : Codecs) where
  abbrev pub dns_scheme : Text
  dns_scheme = b'd' ∷ b'n' ∷ b's' ∷ b':' ∷ b'/' ∷ b'/' ∷ []

  abbrev pub with_scheme : Option Text → Text
  with_scheme none = []
  with_scheme (some encoded) = dns_scheme ++ C.base64 encoded

  unfoldable pub generate_dnstt_url : Text → Text → Text → Text → Text → Text
  generate_dnstt_url label domain pubkey username password = with_scheme (
      C.marshal (record {
        ps = dnstt_prefix ++ label;
        ns = domain;
        pubkey = pubkey;
        user = username;
        pass = password;
      }))

  abbrev pub fingerprint_of : Option Text → Text
  fingerprint_of none = []
  fingerprint_of (some raw) = hex (C.sha256 raw)

  abbrev pub then_by : {A B : Type 0} → Option A → (A → Option B) → Option B
  then_by none f = none
  then_by (some a) f = f a

  unfoldable pub read_cert_fingerprint : Text → Text
  unfolding hex
  read_cert_fingerprint cert_path =
      fingerprint_of (then_by (then_by (C.read_file cert_path) C.pem_block) C.certificate)

  abbrev pub filled : Text → Option Text
  filled t = if is_empty t then none else some t

  abbrev pub cert_of : Text → Option Text
  cert_of path = if is_empty path then none else filled (read_cert_fingerprint path)

  abbrev pub label_or : Text → Text → Text
  label_or label username = if is_empty label then ssh_prefix ++ username else label

  abbrev pub exported : Client → Text → Flags → Exported
  exported client username f =
      let label = label_or f.label username in
      record {
        ssh_url = generate_ssh_url username client.password f.host f.port f.token label;
        dnstt_url =
            if not (is_empty f.domain) && not (is_empty f.pubkey)
            then some (generate_dnstt_url label f.domain f.pubkey username client.password)
            else none;
        slipstream =
            if is_empty f.slipstream_domain
            then none
            else some (record {
              domain = f.slipstream_domain;
              username = username;
              password = client.password;
              host = f.host;
              port = f.port;
              cert_sha256 = cert_of f.slipstream_cert;
            });
      }

  abbrev pub exported_of : Option Client → Text → Flags → Option Exported
  exported_of none username f = none
  exported_of (some client) username f = some (exported client username f)

  -- `none` is the error that the client is not found.
  unfoldable pub export_command : (D : Database) → Text → Flags → D.State → Option Exported
  unfolding generate_ssh_url
  export_command D username f s = exported_of (D.find_first s username) username f
