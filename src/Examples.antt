-- ===== src/Examples.antt =====
-- Inputs on which the theorems are applied, and the applications.
mod Logins
mod Connections
mod Requests
mod Sessions
mod Commands
mod Names
mod Interleavings
mod Bills
mod Ledgers
mod Keys
mod Serving
mod Options
mod Sockets
mod Machines
use libersuite_panel.Prelude.{
  ℕ, Bool, true, false, Option, none, some, List, [], ◌∷◌, ◌==◌, if◌then◌else◌,
}
use libersuite_panel.Prelude.Int.{pos}
use libersuite_panel.Text.{Text}
use libersuite_panel.Client.{Client}
use libersuite_panel.Database.Table.{Table}
use libersuite_panel.Socks.Wire.{World}
use libersuite_panel.Socks.Auth.Login.{Login}
use libersuite_panel.Ssh.{Tracker}

-- The name is "al", the password "pw".
abbrev pub al : Text
al = b'a' ∷ b'l' ∷ []

abbrev pub pw : Text
pw = b'p' ∷ b'w' ∷ []

abbrev pub alice : Client
alice = record {
  id = 1;
  username = al;
  password = pw;
  traffic_limit = pos 1000;
  traffic_used = pos 10;
  expires_at = 0;
  enabled = true;
  last_connection = 0;
}

abbrev pub one_row : Table
one_row = record { rows = λ i. if 1 == i then some alice else none; size = 1 }

abbrev pub login : Login
login = record { methods = 0 ∷ 2 ∷ []; username = al; password = pw }

abbrev pub wrong_login : Login
wrong_login = record { methods = 2 ∷ []; username = al; password = al }

abbrev pub world : Text → World Table
world input = record {
  wire = record {
    input = input;
    output = [];
    deliveries = [];
    has_deadline = true;
    closed = false;
  };
  db = one_row;
}

-- A session of alice with 5 bytes read and 7 written.
abbrev pub session : Tracker
session = record { client = alice; bytes_read = pos 5; bytes_written = pos 7 }
