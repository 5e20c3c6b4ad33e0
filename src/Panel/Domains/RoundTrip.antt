-- ===== src/Panel/Domains/RoundTrip.antt =====
-- What parseDomains returns, and that it reads back a list that was joined by commas.
use libersuite_panel.Prelude.{
  ℕ, ◌≡◌, ◌≢◌, refl, ap, ◌∙◌, false, List, [], ◌∷◌, ◌++◌, ◌==◌, if◌then◌else◌, arith, Bool-cases,
  inl, inr, All,
}
use libersuite_panel.Text.{Text, is_empty, split, onto_head}
use libersuite_panel.Text.HostPort.{contains_byte, NoByte}
use libersuite_panel.Text.Trim.{
  trim_left, trim_right, keep, trim_space, IsTrimmed, trim_space-IsTrimmed, trim_space_fixed,
}
use libersuite_panel.Panel.Domains.{non_empty_parts, parse_domains}

-- strings.Join(parts, ",")
unfoldable pub join_comma : List Text → Text
join_comma [] = []
join_comma (p ∷ []) = p
join_comma (p ∷ q ∷ ps) = p ++ (b',' ∷ join_comma (q ∷ ps))

split_no_comma : (p : Text) → NoByte b',' p → split b',' p ≡ p ∷ []
unfolding split contains_byte
split_no_comma [] h = refl
split_no_comma (c ∷ p) h = ground (arith, split_no_comma p)

split-append :
    (p rest : Text) → NoByte b',' p → split b',' (p ++ (b',' ∷ rest)) ≡ p ∷ split b',' rest
unfolding split contains_byte
split-append [] rest h = refl
split-append (c ∷ p) rest h = ground (arith, split-append p rest)

-- The entries that a list can carry.
abbrev pub IsEntry : Text → Type 0
IsEntry p = (p ≢ []) × IsTrimmed p × NoByte b',' p

split-join_comma :
    (p : Text) (ps : List Text) → All IsEntry (p ∷ ps) → split b',' (join_comma (p ∷ ps)) ≡ p ∷ ps
unfolding join_comma
split-join_comma p [] h = split_no_comma p h.0.2
split-join_comma p (q ∷ ps) h =
    split-append p (join_comma (q ∷ ps)) h.0.2 ∙ ap (◌∷◌ p) (split-join_comma q ps h.1)

kept : (p : Text) (ps : List Text) → p ≢ [] → (if is_empty p then ps else p ∷ ps) ≡ p ∷ ps
kept [] ps h = absurd (h refl)
kept (c ∷ p) ps h = refl

non_empty_parts_fixed : (ps : List Text) → All IsEntry ps → non_empty_parts ps ≡ ps
unfolding non_empty_parts
non_empty_parts_fixed [] h = refl
non_empty_parts_fixed (p ∷ ps) h =
    rw (trim_space_fixed p h.0.1, non_empty_parts_fixed ps h.1) (kept p ps h.0.0)

parse_domains_of : (t : Text) → parse_domains t ≡ non_empty_parts (split b',' t)
unfolding parse_domains
parse_domains_of t = refl

nothing : parse_domains [] ≡ []
unfolding parse_domains split trim_space
nothing = refl

-- A list of entries, none empty, none with white space at an end or a comma, is read back from the text
-- that joins them by commas; so is the empty list.
pub parse_domains-join_comma :
    (ps : List Text) → All IsEntry ps → parse_domains (join_comma ps) ≡ ps
unfolding join_comma
parse_domains-join_comma [] h = nothing
parse_domains-join_comma (p ∷ ps) h = joined (join_comma (p ∷ ps)) (split-join_comma p ps h)
  where
    joined : (t : Text) → split b',' t ≡ p ∷ ps → parse_domains t ≡ p ∷ ps
    joined t e = parse_domains_of t ∙ ap non_empty_parts e ∙ non_empty_parts_fixed (p ∷ ps) h

onto_head_no_comma :
    (c : ℕ) (ps : List Text)
    → (c == b',') ≡ false
    → All (NoByte b',') ps
    → All (NoByte b',') (onto_head c ps)
unfolding contains_byte
onto_head_no_comma c [] h k = (rw h, tt)
onto_head_no_comma c (p ∷ ps) h k = (rw h k.0, k.1)

no_comma_parts : (t : Text) → All (NoByte b',') (split b',' t)
unfolding split contains_byte
no_comma_parts [] = (refl, tt)
no_comma_parts (c ∷ t) = elim (Bool-cases (c == b',')) [
  | inl e ↦ rw e (refl, no_comma_parts t)
  | inr e ↦ rw e (onto_head_no_comma c (split b',' t) e (no_comma_parts t))
]

trim_left_no_byte : (b : ℕ) (s : Text) → NoByte b s → NoByte b (trim_left s)
unfolding trim_left contains_byte
trim_left_no_byte b [] h = h
trim_left_no_byte b (c ∷ s) h = ground (arith, trim_left_no_byte b s)

keep_no_byte : (b c : ℕ) (s : Text) → (c == b) ≡ false → NoByte b s → NoByte b (keep c s)
unfolding contains_byte
keep_no_byte b c [] h k = ground arith
keep_no_byte b c (d ∷ s) h k = rw h k

trim_right_no_byte : (b : ℕ) (s : Text) → NoByte b s → NoByte b (trim_right s)
unfolding trim_right contains_byte
trim_right_no_byte b [] h = h
trim_right_no_byte b (c ∷ s) h =
    keep_no_byte b c (trim_right s) (ground arith) (trim_right_no_byte b s (ground arith))

trim_space_no_byte : (b : ℕ) (s : Text) → NoByte b s → NoByte b (trim_space s)
unfolding trim_space
trim_space_no_byte b s h = trim_right_no_byte b (trim_left s) (trim_left_no_byte b s h)

unless_empty_IsEntry :
    (p : Text) (rest : List Text)
    → IsTrimmed p
    → NoByte b',' p
    → All IsEntry rest
    → All IsEntry (if is_empty p then rest else p ∷ rest)
unless_empty_IsEntry [] rest t n h = h
unless_empty_IsEntry (c ∷ p) rest t n h = (((λ e. cc), t, n), h)

non_empty_parts-IsEntry : (ps : List Text) → All (NoByte b',') ps → All IsEntry (non_empty_parts ps)
unfolding non_empty_parts
non_empty_parts-IsEntry [] h = tt
non_empty_parts-IsEntry (p ∷ ps) h =
    unless_empty_IsEntry (trim_space p) (non_empty_parts ps) (trim_space-IsTrimmed p)
      (trim_space_no_byte b',' p h.0) (non_empty_parts-IsEntry ps h.1)

-- Whatever the value, each entry of the result is not empty, has no white space at its ends and no
-- comma.
pub parse_domains-IsEntry : (value : Text) → All IsEntry (parse_domains value)
unfolding parse_domains
parse_domains-IsEntry value = non_empty_parts-IsEntry (split b',' value) (no_comma_parts value)
