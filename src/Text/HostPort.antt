-- ===== src/Text/HostPort.antt =====
-- net.JoinHostPort, and net.SplitHostPort by which net.Dial reads an address.
use mathlib.Core.List.{append_assoc}
use libersuite_panel.Prelude.{
  ℕ, ◌<◌, ◌≤◌, ◌≡◌, refl, sym, ap, ◌∙◌, List, [], ◌∷◌, ◌++◌, Bool, true, false, ◌||◌, arith, ◌==◌,
  if◌then◌else◌, All, Option, none, some, Bool-cases, inl, inr,
}
use libersuite_panel.Text.Decimal.{IsDigit}

unfoldable pub contains_byte : ℕ → List ℕ → Bool
contains_byte b [] = false
contains_byte b (c ∷ s) = c == b || contains_byte b s

unfoldable pub join_host_port : List ℕ → List ℕ → List ℕ
unfolding contains_byte
join_host_port host port =
    if contains_byte b':' host then b'[' ∷ (host ++ (b']' ∷ b':' ∷ port)) else host ++ (b':' ∷ port)

-- What stands before the last colon, and what stands behind it.
abbrev pub cons_before : ℕ → Option (List ℕ × List ℕ) → Option (List ℕ × List ℕ)
cons_before c none = none
cons_before c (some (before, port)) = some (c ∷ before, port)

unfoldable pub last_colon : List ℕ → Option (List ℕ × List ℕ)
last_colon [] = none
last_colon (c ∷ s) =
    if contains_byte b':' s
    then cons_before c (last_colon s)
    else if c == b':'
    then some ([], s)
    else none

-- The text up to the first `]`, which must end the given text.
abbrev pub cons_inside : ℕ → Option (List ℕ) → Option (List ℕ)
cons_inside c none = none
cons_inside c (some s) = some (c ∷ s)

abbrev pub end_bracket : List ℕ → Option (List ℕ)
end_bracket [] = some []
end_bracket (c ∷ s) = none

unfoldable pub inside_bracket : List ℕ → Option (List ℕ)
inside_bracket [] = none
inside_bracket (c ∷ s) = if c == b']' then end_bracket s else cons_inside c (inside_bracket s)

abbrev pub plain_host : List ℕ → List ℕ → Option (List ℕ × List ℕ)
plain_host host port =
    if contains_byte b':' host
      || (contains_byte b'[' host
          || (contains_byte b']' host || (contains_byte b'[' port || contains_byte b']' port)))
    then none
    else some (host, port)

abbrev pub bracketed_host : Option (List ℕ) → List ℕ → Option (List ℕ × List ℕ)
bracketed_host none port = none
bracketed_host (some host) port =
    if contains_byte b'[' host || (contains_byte b'[' port || contains_byte b']' port)
    then none
    else some (host, port)

-- The last colon ends the host; a host in brackets may hold colons, and no other host may.
unfoldable pub host_of : List ℕ → List ℕ → Option (List ℕ × List ℕ)
unfolding inside_bracket
host_of [] port = plain_host [] port
host_of (c ∷ s) port =
    if c == b'[' then bracketed_host (inside_bracket s) port else plain_host (c ∷ s) port

-- `none` stands for each of SplitHostPort's errors.
unfoldable pub split_host_port : List ℕ → Option (List ℕ × List ℕ)
unfolding last_colon host_of contains_byte
split_host_port s = elim (last_colon s) [ none ↦ none | some (before, port) ↦ host_of before port ]

pub contains_byte-append :
    (b : ℕ) (s t : List ℕ) → contains_byte b (s ++ t) ≡ (contains_byte b s || contains_byte b t)
unfolding contains_byte
contains_byte-append b [] t = refl
contains_byte-append b (c ∷ s) t = ground (arith, contains_byte-append b s t)

-- A text of bytes up to `9` has none of the bytes behind it.
pub contains_byte_above :
    (b : ℕ) (s : List ℕ) → All (λ c. c ≤ b'9') s → b'9' < b → contains_byte b s ≡ false
unfolding contains_byte
contains_byte_above b [] h lt = refl
contains_byte_above b (c ∷ s) h lt = ground (arith, contains_byte_above b s h.1)

at_most_nine : (s : List ℕ) → All IsDigit s → All (λ c. c ≤ b'9') s
at_most_nine [] h = tt
at_most_nine (c ∷ s) h = (h.0.1, at_most_nine s h.1)

pub contains_byte-IsDigit :
    (b : ℕ) (s : List ℕ) → All IsDigit s → b'9' < b → contains_byte b s ≡ false
contains_byte-IsDigit b s h lt = contains_byte_above b s (at_most_nine s h) lt

pub contains_byte_after : (b : ℕ) (s t : List ℕ) → contains_byte b (s ++ (b ∷ t)) ≡ true
unfolding contains_byte
contains_byte_after b [] t = ground arith
contains_byte_after b (c ∷ s) t = ground (arith, contains_byte_after b s t)

last_colon-append :
    (host port : List ℕ)
    → contains_byte b':' port ≡ false
    → last_colon (host ++ (b':' ∷ port)) ≡ some (host, port)
unfolding last_colon
last_colon-append [] port h = rw h
last_colon-append (c ∷ host) port h =
    rw (contains_byte_after b':' host port, last_colon-append host port h)

abbrev pub NoByte : ℕ → List ℕ → Type 0
NoByte b s = contains_byte b s ≡ false

host_of_plain : (host port : List ℕ) → NoByte b'[' host → host_of host port ≡ plain_host host port
unfolding host_of contains_byte
host_of_plain [] port h = refl
host_of_plain (c ∷ s) port h = ground arith

inside_bracket-append :
    (host : List ℕ) → NoByte b']' host → inside_bracket (host ++ (b']' ∷ [])) ≡ some host
unfolding inside_bracket contains_byte
inside_bracket-append [] h = refl
inside_bracket-append (c ∷ host) h = ground (arith, inside_bracket-append host)

module _ (port : List ℕ) (digits : All IsDigit port) where
  port_no_byte : (b : ℕ) → b'9' < b → NoByte b port
  port_no_byte b h = contains_byte-IsDigit b port digits h

  split_host_port-append :
      (host : List ℕ) → split_host_port (host ++ (b':' ∷ port)) ≡ host_of host port
  unfolding split_host_port
  split_host_port-append host =
      rw (last_colon-append host port (port_no_byte b':' (omega arith)), split_host_port)

  plain_host_good :
      (host : List ℕ)
      → NoByte b':' host
      → NoByte b'[' host
      → NoByte b']' host
      → plain_host host port ≡ some (host, port)
  plain_host_good host c o e =
      rw (c, o, e, port_no_byte b'[' (omega arith), port_no_byte b']' (omega arith))

  -- A host with no colon and no bracket, and a port in digits, are read back.
  pub split_host_port_plain :
      (host : List ℕ)
      → NoByte b':' host
      → NoByte b'[' host
      → NoByte b']' host
      → split_host_port (host ++ (b':' ∷ port)) ≡ some (host, port)
  split_host_port_plain host colon opening closing =
      split_host_port-append host
      ∙ host_of_plain host port opening
      ∙ plain_host_good host colon opening closing

  -- A host with a colon, written with no brackets, is refused.
  pub split_host_port_colon :
      (host : List ℕ)
      → contains_byte b':' host ≡ true
      → NoByte b'[' host
      → split_host_port (host ++ (b':' ∷ port)) ≡ none
  split_host_port_colon host colon opening =
      split_host_port-append host ∙ host_of_plain host port opening ∙ rw colon

  split_host_port_bracket :
      (host : List ℕ)
      → NoByte b'[' host
      → NoByte b']' host
      → split_host_port (b'[' ∷ (host ++ (b']' ∷ b':' ∷ port))) ≡ some (host, port)
  unfolding host_of
  split_host_port_bracket host opening closing =
      ap (λ t. split_host_port (b'[' ∷ t)) (sym (append_assoc host (b']' ∷ []) (b':' ∷ port)))
      ∙ split_host_port-append (b'[' ∷ (host ++ (b']' ∷ [])))
      ∙ rw (
        inside_bracket-append host closing,
        opening,
        port_no_byte b'[' (omega arith),
        port_no_byte b']' (omega arith),
      )

  -- What JoinHostPort writes is read back, for every host with no bracket.
  pub split_host_port-join_host_port :
      (host : List ℕ)
      → NoByte b'[' host
      → NoByte b']' host
      → split_host_port (join_host_port host port) ≡ some (host, port)
  unfolding join_host_port
  split_host_port-join_host_port host opening closing =
      elim (Bool-cases (contains_byte b':' host)) [
        | inl e ↦ rw e (split_host_port_bracket host opening closing)
        | inr e ↦ rw e (split_host_port_plain host e opening closing)
      ]
