-- ===== src/Examples/Serving.antt =====
-- The server command, its listeners, the list of the clients, and sessions at the same time.
use libersuite_panel.Prelude.{
  ℕ, ◌+◌, ◌*◌, ◌≤◌, ◌<◌, ◌≡◌, refl, Bool, true, false, Option, none, some, List, [], ◌∷◌, ◌++◌,
  arith,
}
use libersuite_panel.Prelude.Int.{pos}
use libersuite_panel.Text.{Text}
use libersuite_panel.Text.Decimal.{format_nat}
use libersuite_panel.Client.{Time}
use libersuite_panel.Database.Table.{table, row, entries}
use libersuite_panel.Database.Table.Laws.{table-IsLawful, table-IsLawful_row}
use libersuite_panel.Dns.{DomainRoute}
use libersuite_panel.Crypto.Calls.{Disk}
use libersuite_panel.Listener.{
  Listener, Event, connects, counts, shuts_down, handler_ends, wait_over, holding, ended, waiting,
  clean, run, step, started,
}
use libersuite_panel.Listener.Drain.{clean_idle, rest_of, held, work, effective, shutdown_ends}
use libersuite_panel.Panel.Serve.{Options, serving, launch}
use libersuite_panel.Panel.Export.{Flags}
use libersuite_panel.Panel.Flags.{
  AddFlags, KeyFlags, server_defaults, server_flags, read_server, add_flags, read_add, export_flags,
  read_export, generate_flags, read_generate, regenerate_flags, read_regenerate, check_flags,
  read_check,
}
use libersuite_panel.Panel.Flags.Reads.{flags_read}
use libersuite_panel.Panel.Serve.Ready.{IsReady, launch-IsReady}
use libersuite_panel.Panel.Listing.{Row, rows, list_command}
use libersuite_panel.Panel.Listing.Total.{DescribesAll, list_command_total}
use libersuite_panel.Socks.Quota.{nil, quota_write}
use libersuite_panel.Socks.Request.Overdraw.{writer_of, bill_each, sessions_overdraw}
use libersuite_panel.Examples.{al, pw, alice, one_row, world}
use libersuite_panel.Examples.Keys.{keys, empty_disk}

-- Each address resolves.
abbrev resolve : Text → Option ℕ
resolve a = some 2

abbrev same : ℕ → ℕ
same c = c

abbrev pub options : Options
options = record {
  dns_domain = al;
  dnstt_addr = pw;
  slipstream_domain = [];
  slipstream_addr = [];
  port = pos 443;
  ssh_port = pos 22;
  socks_port = pos 1080;
  host_key = al;
  regenerate_key = false;
  key_size = pos 0;
}

abbrev routes : List (DomainRoute ℕ)
routes = record { domain = al ++ (b'.' ∷ []); backend = 2 } ∷ []

abbrev launched : Disk
launched = (launch keys resolve same pw options empty_disk).1

launched_serving : launch keys resolve same pw options empty_disk ≡ (serving routes, launched)
unfolding launch libersuite_panel.Panel.Setup.setup libersuite_panel.Panel.Domains.parse_domains
    libersuite_panel.Text.split libersuite_panel.Text.Trim.trim_space
    libersuite_panel.Panel.Keys.host_key_step libersuite_panel.Crypto.generate_rsa_key_pair
    libersuite_panel.Crypto.Calls.mkdir_all libersuite_panel.Dns.new_dns_dispatcher
    libersuite_panel.Text.to_lower libersuite_panel.Dns.with_dot
    libersuite_panel.Text.Suffix.has_suffix libersuite_panel.Prelude.text_eq
launched_serving = refl

launch-IsReady_example : IsReady keys resolve same pw options launched routes
launch-IsReady_example =
    launch-IsReady keys resolve same pw options empty_disk launched routes launched_serving

abbrev history : List Event
history = connects ∷ counts ∷ shuts_down ∷ handler_ends ∷ wait_over ∷ []

history_clean : (run started history).stop ≡ clean
unfolding run step
history_clean = refl

clean_idle_example :
    ((run started history).is_open ≡ false)
    × ((run started history).running + held (run started history).loop ≤ 1)
clean_idle_example = clean_idle history history_clean

abbrev busy : Listener
busy = record { is_open = false; cancelled = false; loop = holding; running = 2; stop = waiting }

shutdown_ends_example :
    (run busy (rest_of busy) ≡ record busy { loop = ended; running = 0; stop = clean })
    × (work (run busy history) + effective busy history ≤ work busy)
shutdown_ends_example = shutdown_ends busy history refl refl

abbrev ratio : ℕ → ℕ → Text
ratio m n = format_nat m

abbrev date : Time → Text
date at = format_nat at

found : table.find one_row ≡ some (alice ∷ [])
unfolding entries row
found = refl

list_command_total_example :
    (rs : List Row) × (list_command ratio date table (λ i. 5) one_row ≡ some (rows rs))
    × DescribesAll ratio date (λ i. 5) (alice ∷ []) rs
list_command_total_example =
    list_command_total ratio date table (λ i. 5) one_row alice [] found
      ((omega arith, omega arith), tt)

abbrev everyone : Text → Text → Bool
everyone host port = true

alice_row : table-IsLawful.row one_row 1 ≡ some alice
unfolding row
alice_row = table-IsLawful_row one_row 1

sessions_overdraw_example :
    (quota_write (writer_of alice) (pos 0) 500 false ≡ (pos 500, nil))
    × (table-IsLawful.row (bill_each table table-IsLawful everyone alice 3 500 (world [])).db 1
        ≡ some (record alice { traffic_used = pos (10 + 3 * 500) }))
sessions_overdraw_example =
    sessions_overdraw table table-IsLawful everyone alice 10 1000 500 (omega arith) refl refl
      (omega arith) (omega arith) (λ s. refl) 3 10 (world []) alice alice_row refl (omega arith)

abbrev limited : AddFlags
limited = record { traffic_limit = pos 5; expires_in = pos 30 }

abbrev shared_link : Flags
shared_link = record {
  host = al;
  port = pos 443;
  token = pw;
  label = [];
  domain = al;
  pubkey = pw;
  slipstream_domain = [];
  slipstream_cert = [];
}

abbrev forced : KeyFlags
forced = record { output = al; size = pos 4096; force = true }

flags_read_example :
    (read_server (server_flags server_defaults) ≡ some server_defaults)
    × (read_add (add_flags limited) ≡ limited)
    × (read_export (export_flags shared_link) ≡ shared_link)
    × (read_generate (generate_flags forced) ≡ forced)
    × (read_regenerate (regenerate_flags al (pos 2048)) ≡ (al, pos 2048))
    × (read_check (check_flags al) ≡ al)
flags_read_example = flags_read server_defaults limited shared_link forced al (pos 2048)
