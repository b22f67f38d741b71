-- ===== src/ClientIp.antt =====
-- transport.go: clientIP, the address that the ip_hash picker hashes.
-- net.ParseIP, net.SplitHostPort and strings.TrimSpace are parameters.
use cslb.Prelude.{
  ℕ, ◌==◌, ◌≡◌, ◌≢◌, refl, sym, ap, ◌∙◌, if◌then◌else◌, List, [], ◌∷◌, ◌++◌, Option, none, some,
  arith,
}
use cslb.Upstream.{is_empty}

-- What clientIP reads of a request. Header.Get returns an empty string for a header that is missing.
pub record Origin : Type 0 where
  pub real_ip : List ℕ
  pub forwarded_for : List ℕ
  pub remote_addr : List ℕ

-- An error or a nil result is `none`; SplitHostPort gives the host.
pub record AddressLib : Type 0 where
  pub parse_ip : List ℕ → Option (List ℕ)
  pub split_host_port : List ℕ → Option (List ℕ)
  pub trim_space : List ℕ → List ℕ

-- What stands before the first comma, if there is one.
unfoldable pub before_comma : List ℕ → List ℕ
before_comma [] = []
before_comma (c ∷ cs) = let rest = before_comma cs in if c == 44 then [] else c ∷ rest

abbrev Lacks : ℕ → List ℕ → Type 0
Lacks c [] = Unit {0}
Lacks c (d ∷ ds) = (d ≢ c) × Lacks c ds

-- What stands before the first comma, or everything.
pub data IsFirstEntry (text entry : List ℕ) : Type 0 where
  only : Lacks 44 text → entry ≡ text → IsFirstEntry text entry
  cut : (rest : List ℕ) → Lacks 44 entry → text ≡ entry ++ (44 ∷ rest) → IsFirstEntry text entry

before_comma-Lacks : (text : List ℕ) → Lacks 44 text → before_comma text ≡ text
unfolding before_comma
before_comma-Lacks [] v = refl
before_comma-Lacks (c ∷ cs) v = let h = before_comma-Lacks cs v.1 in ground arith

before_comma-append :
    (entry rest : List ℕ) → Lacks 44 entry → before_comma (entry ++ (44 ∷ rest)) ≡ entry
unfolding before_comma
before_comma-append [] rest v = refl
before_comma-append (c ∷ cs) rest v = let h = before_comma-append cs rest v.1 in ground arith

before_comma-IsFirstEntry :
    (text entry : List ℕ) → IsFirstEntry text entry → before_comma text ≡ entry
before_comma-IsFirstEntry text entry (only v e) = before_comma-Lacks text v ∙ sym e
before_comma-IsFirstEntry text entry (cut rest v e) =
    ap before_comma e ∙ before_comma-append entry rest v

module _ (lib : AddressLib) where
  -- One of the three ifs: `value` is not empty and `text` parses, or else the rest is tried.
  unfoldable pub or_else : List ℕ → List ℕ → Option (List ℕ) → Option (List ℕ)
  or_else value text rest =
      if is_empty value
      then rest
      else elim (lib.parse_ip (lib.trim_space text)) [ some ip ↦ some ip | none ↦ rest ]

  unfoldable pub host_of : List ℕ → List ℕ
  host_of addr = elim (lib.split_host_port addr) [ none ↦ addr | some host ↦ host ]

  unfoldable pub client_ip : Origin → Option (List ℕ)
  unfolding or_else host_of before_comma
  client_ip r = or_else r.real_ip r.real_ip (
      or_else r.forwarded_for (before_comma r.forwarded_for)
        (or_else r.remote_addr (host_of r.remote_addr) none))

  unfoldable pub first_address : List (List ℕ) → Option (List ℕ)
  first_address [] = none
  first_address (c ∷ cs) = elim (lib.parse_ip (lib.trim_space c)) [
    | some ip ↦ some ip
    | none ↦ first_address cs
  ]

  -- The host that an address names: the address itself, if SplitHostPort refuses it.
  pub data IsHostOf (addr host : List ℕ) : Type 0 where
    split : lib.split_host_port addr ≡ some host → IsHostOf addr host
    whole : lib.split_host_port addr ≡ none → host ≡ addr → IsHostOf addr host

  host_of-IsHostOf : (addr host : List ℕ) → IsHostOf addr host → host_of addr ≡ host
  unfolding host_of
  host_of-IsHostOf addr host (split q) = rw (q, host_of) refl
  host_of-IsHostOf addr host (whole q e) = rw (q, host_of) (sym e)

  abbrev parsed_or : List ℕ → Option (List ℕ) → Option (List ℕ)
  parsed_or text rest = elim (lib.parse_ip (lib.trim_space text)) [
    | some ip ↦ some ip
    | none ↦ rest
  ]

  -- An empty value need not be asked about where its text does not parse.
  or_else-parsed_or :
      (value text : List ℕ) (rest : Option (List ℕ))
      → lib.parse_ip (lib.trim_space []) ≡ none
      → (value ≡ [] → text ≡ [])
      → or_else value text rest ≡ parsed_or text rest
  unfolding or_else
  or_else-parsed_or [] text rest q h = sym (
      ap (λ o. elim o [ some ip ↦ some ip | none ↦ rest ])
        (ap (λ t. lib.parse_ip (lib.trim_space t)) (h refl) ∙ q))
  or_else-parsed_or (c ∷ cs) text rest q h = ground arith

  client_ip-three :
      (r : Origin)
      → lib.parse_ip (lib.trim_space []) ≡ none
      → lib.split_host_port [] ≡ none
      → client_ip r
        ≡ first_address (r.real_ip ∷ before_comma r.forwarded_for ∷ host_of r.remote_addr ∷ [])
  unfolding client_ip first_address
  client_ip-three r p s =
      or_else-parsed_or r.real_ip r.real_ip _ p (λ e. e)
      ∙ ap (parsed_or r.real_ip) (
          or_else-parsed_or r.forwarded_for (before_comma r.forwarded_for) _ p
            (λ e. ap before_comma e)
          ∙ ap (parsed_or (before_comma r.forwarded_for)) (
              or_else-parsed_or r.remote_addr (host_of r.remote_addr) none p
                (λ e. ap host_of e ∙ host_of-IsHostOf [] [] (whole s refl))))

  -- clientIP is the first address that parses, after trimming, of three: X-Real-IP; the entries of
  -- X-Forwarded-For up to its first comma, or all of it if it has no comma; and the host of
  -- RemoteAddr, or all of it if SplitHostPort refuses it. If none parses there is no address. An empty
  -- string neither parses as an address nor splits into a host and a port.
  pub client_ip-first_address :
      (r : Origin) (forwarded host : List ℕ)
      → IsFirstEntry r.forwarded_for forwarded
      → IsHostOf r.remote_addr host
      → lib.parse_ip (lib.trim_space []) ≡ none
      → lib.split_host_port [] ≡ none
      → client_ip r ≡ first_address (r.real_ip ∷ forwarded ∷ host ∷ [])
  client_ip-first_address r forwarded host f h p s = client_ip-three r p s ∙ (λ k. first_address (
      r.real_ip
      ∷ before_comma-IsFirstEntry r.forwarded_for forwarded f k
      ∷ host_of-IsHostOf r.remote_addr host h k
      ∷ []))
