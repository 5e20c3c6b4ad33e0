-- ===== src/Panel/Flags.antt =====
-- The flags of the commands of cmd/panel: what `init` declares, and what each command reads. Which values the flags
-- have after the command line is parsed is cobra's; each keeps the type that it was declared with.
pub mod Reads
use Prim.Native.String.{String}
use text.Mathlib.Text.{◌==◌ as str_eq}
use libersuite_panel.Prelude.{Bool, true, false, Option, none, some, List, [], ◌∷◌, if◌then◌else◌}
use libersuite_panel.Prelude.Int.{ℤ, pos}
use libersuite_panel.Text.{Text}
use libersuite_panel.Panel.Serve.{Options}
use libersuite_panel.Panel.Export.{Flags}

-- A flag by its type: String, Int, Int64 or Bool.
pub data Value : Type 0 where
  string : Text → Value
  int int64 : ℤ → Value
  bool : Bool → Value

abbrev pub FlagSet : Type 0
FlagSet = List (String × Value)

unfoldable pub find_flag : String → FlagSet → Option Value
find_flag name [] = none
find_flag name ((n, v) ∷ fs) = if str_eq n name then some v else find_flag name fs

infixl 5 ◌>>=◌
abbrev pub ◌>>=◌ : {A B : Type 0} → Option A → (A → Option B) → Option B
none >>= f = none
some a >>= f = f a

abbrev as_string : Value → Option Text
as_string (string t) = some t
as_string (int n) = none
as_string (int64 n) = none
as_string (bool b) = none

abbrev as_int : Value → Option ℤ
as_int (string t) = none
as_int (int n) = some n
as_int (int64 n) = none
as_int (bool b) = none

abbrev as_int64 : Value → Option ℤ
as_int64 (string t) = none
as_int64 (int n) = none
as_int64 (int64 n) = some n
as_int64 (bool b) = none

abbrev as_bool : Value → Option Bool
as_bool (string t) = none
as_bool (int n) = none
as_bool (int64 n) = none
as_bool (bool b) = some b

-- GetString and the like: an error if there is no such flag, or one of another type.
unfoldable pub get_string : FlagSet → String → Option Text
unfolding find_flag
get_string fs name = find_flag name fs >>= as_string

unfoldable pub get_int : FlagSet → String → Option ℤ
unfolding find_flag
get_int fs name = find_flag name fs >>= as_int

unfoldable pub get_int64 : FlagSet → String → Option ℤ
unfolding find_flag
get_int64 fs name = find_flag name fs >>= as_int64

unfoldable pub get_bool : FlagSet → String → Option Bool
unfolding find_flag
get_bool fs name = find_flag name fs >>= as_bool

-- The value beside a dropped error is the zero value.
abbrev pub or_zero {ℓ} : {A : Type ℓ} → A → Option A → A
or_zero zero none = zero
or_zero zero (some a) = a

-- The server command.
pub record ServerFlags : Type 0 where
  pub host : Text
  pub options : Options

unfoldable pub server_flags : ServerFlags → FlagSet
server_flags v =
    ("host", string v.host)
    ∷ ("port", int v.options.port)
    ∷ ("ssh-port", int v.options.ssh_port)
    ∷ ("socks-port", int v.options.socks_port)
    ∷ ("host-key", string v.options.host_key)
    ∷ ("regenerate-key", bool v.options.regenerate_key)
    ∷ ("key-size", int v.options.key_size)
    ∷ ("dns-domain", string v.options.dns_domain)
    ∷ ("dnstt-addr", string v.options.dnstt_addr)
    ∷ ("slipstream-domain", string v.options.slipstream_domain)
    ∷ ("slipstream-addr", string v.options.slipstream_addr)
    ∷ []

-- "0.0.0.0"
abbrev pub server_defaults : ServerFlags
server_defaults = record {
  host = b'0' ∷ b'.' ∷ b'0' ∷ b'.' ∷ b'0' ∷ b'.' ∷ b'0' ∷ [];
  options = record {
    dns_domain = [];
    dnstt_addr = [];
    slipstream_domain = [];
    slipstream_addr = [];
    port = pos 2222;
    ssh_port = pos 2223;
    socks_port = pos 1080;
    host_key = [];
    regenerate_key = false;
    key_size = pos 2048;
  };
}

unfoldable pub read_server : FlagSet → Option ServerFlags
unfolding get_string get_int get_bool
read_server fs = do
  host ← get_string fs "host"
  port ← get_int fs "port"
  ssh_port ← get_int fs "ssh-port"
  socks_port ← get_int fs "socks-port"
  host_key ← get_string fs "host-key"
  regenerate_key ← get_bool fs "regenerate-key"
  key_size ← get_int fs "key-size"
  dns_domain ← get_string fs "dns-domain"
  dnstt_addr ← get_string fs "dnstt-addr"
  slipstream_domain ← get_string fs "slipstream-domain"
  slipstream_addr ← get_string fs "slipstream-addr"
  some (record {
    host = host;
    options = record {
      dns_domain = dns_domain;
      dnstt_addr = dnstt_addr;
      slipstream_domain = slipstream_domain;
      slipstream_addr = slipstream_addr;
      port = port;
      ssh_port = ssh_port;
      socks_port = socks_port;
      host_key = host_key;
      regenerate_key = regenerate_key;
      key_size = key_size;
    };
  })

-- `client add`
pub record AddFlags : Type 0 where
  pub traffic_limit : ℤ
  pub expires_in : ℤ

unfoldable pub add_flags : AddFlags → FlagSet
add_flags v = ("traffic-limit", int64 v.traffic_limit) ∷ ("expires-in", int v.expires_in) ∷ []

unfoldable pub read_add : FlagSet → AddFlags
unfolding get_int get_int64
read_add fs = record {
  traffic_limit = or_zero (pos 0) (get_int64 fs "traffic-limit");
  expires_in = or_zero (pos 0) (get_int fs "expires-in");
}

-- `client export`
unfoldable pub export_flags : Flags → FlagSet
export_flags v =
    ("host", string v.host)
    ∷ ("port", int v.port)
    ∷ ("token", string v.token)
    ∷ ("label", string v.label)
    ∷ ("domain", string v.domain)
    ∷ ("pubkey", string v.pubkey)
    ∷ ("slipstream-domain", string v.slipstream_domain)
    ∷ ("slipstream-cert", string v.slipstream_cert)
    ∷ []

unfoldable pub read_export : FlagSet → Flags
unfolding get_string get_int
read_export fs = record {
  host = or_zero [] (get_string fs "host");
  port = or_zero (pos 0) (get_int fs "port");
  token = or_zero [] (get_string fs "token");
  label = or_zero [] (get_string fs "label");
  domain = or_zero [] (get_string fs "domain");
  pubkey = or_zero [] (get_string fs "pubkey");
  slipstream_domain = or_zero [] (get_string fs "slipstream-domain");
  slipstream_cert = or_zero [] (get_string fs "slipstream-cert");
}

-- `keys generate`, of which `keys regenerate` has the first two, and `keys check`
pub record KeyFlags : Type 0 where
  pub output : Text
  pub size : ℤ
  pub force : Bool

unfoldable pub generate_flags : KeyFlags → FlagSet
generate_flags v = ("output", string v.output) ∷ ("size", int v.size) ∷ ("force", bool v.force) ∷ []

unfoldable pub read_generate : FlagSet → KeyFlags
unfolding get_string get_int get_bool
read_generate fs = record {
  output = or_zero [] (get_string fs "output");
  size = or_zero (pos 0) (get_int fs "size");
  force = or_zero false (get_bool fs "force");
}

unfoldable pub regenerate_flags : Text → ℤ → FlagSet
regenerate_flags output size = ("output", string output) ∷ ("size", int size) ∷ []

unfoldable pub read_regenerate : FlagSet → Text × ℤ
unfolding get_string get_int
read_regenerate fs = (or_zero [] (get_string fs "output"), or_zero (pos 0) (get_int fs "size"))

unfoldable pub check_flags : Text → FlagSet
check_flags path = ("path", string path) ∷ []

unfoldable pub read_check : FlagSet → Text
unfolding get_string
read_check fs = or_zero [] (get_string fs "path")
