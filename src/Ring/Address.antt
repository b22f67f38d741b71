-- ===== src/Ring/Address.antt =====
-- splitKetamaHostPort takes apart what joins a host and a port.
use mathlib.Core.List.{
  reverse, reverse-append, reverse-reverse, reverse-cons, append_assoc, append-nil,
}
use cslb.Prelude.{
  ℕ, ◌==◌, ◌≡◌, refl, sym, ◌∙◌, ap, true, false, List, [], ◌∷◌, ◌++◌, none, some, arith,
}
use cslb.Ring.{is_digit, cut_scheme, strip_url, until_slash, scan_port, split_ketama_host_port}

abbrev pub AreDigits : List ℕ → Type 0
AreDigits [] = Unit {0}
AreDigits (c ∷ cs) = (is_digit c ≡ true) × AreDigits cs

digit-colon : (c : ℕ) → is_digit c ≡ true → (c == 58) ≡ false
digit-colon c d = ground arith

AreDigits-append : (cs ds : List ℕ) → AreDigits cs → AreDigits ds → AreDigits (cs ++ ds)
AreDigits-append [] ds a b = b
AreDigits-append (c ∷ cs) ds a b = (a.0, AreDigits-append cs ds a.1 b)

AreDigits-reverse : (cs : List ℕ) → AreDigits cs → AreDigits (reverse cs)
AreDigits-reverse [] a = tt
AreDigits-reverse (c ∷ cs) a =
    rw (reverse-cons c cs)
      (AreDigits-append (reverse cs) (c ∷ []) (AreDigits-reverse cs a.1) (a.0, tt))

-- The scan passes digits until the colon.
scan_port-append :
    (ds cs port : List ℕ)
    → AreDigits ds
    → scan_port (ds ++ 58 ∷ cs) port ≡ some (reverse cs, reverse ds ++ port)
unfolding scan_port
scan_port-append [] cs port a = refl
scan_port-append (d ∷ ds) cs port a =
    let colon = digit-colon d a.0 in
    rw (colon, a.0, scan_port)
      (scan_port-append ds cs (d ∷ port) a.1
        ∙ ap (λ p. some (reverse cs, p))
            (sym (append_assoc (reverse ds) (d ∷ []) port)
              ∙ ap (λ r. r ++ port) (sym (reverse-cons d ds))))

strip_url-none : (a : List ℕ) → cut_scheme a ≡ none → strip_url a ≡ a
unfolding strip_url
strip_url-none a n = ap (λ o. elim o [ none ↦ a | some rest ↦ until_slash rest ]) n

-- A host, a colon and a port of digits, with no `://` among them, are taken apart again.
pub split_ketama_host_port-append :
    (host port : List ℕ)
    → AreDigits port
    → cut_scheme (host ++ 58 ∷ port) ≡ none
    → split_ketama_host_port (host ++ 58 ∷ port) ≡ (host, port)
unfolding split_ketama_host_port
split_ketama_host_port-append host port a n =
    let turned : reverse (host ++ 58 ∷ port) ≡ reverse port ++ 58 ∷ reverse host =
      reverse-append host (58 ∷ port)
      ∙ (ap (λ r. r ++ reverse host) (reverse-cons 58 port)
          ∙ append_assoc (reverse port) (58 ∷ []) (reverse host)) in
    let found : scan_port (reverse (host ++ 58 ∷ port)) [] ≡ some (host, port) =
      ap (λ r. scan_port r []) turned
      ∙ (scan_port-append (reverse port) (reverse host) [] (AreDigits-reverse port a) ∙ (λ k. some (
        reverse-reverse host k,
        (append-nil (reverse (reverse port)) ∙ reverse-reverse port) k,
      ))) in
    ap (λ x. elim (scan_port (reverse x) []) [ none ↦ (x, []) | some r ↦ r ])
      (strip_url-none (host ++ 58 ∷ port) n)
    ∙ ap (λ o. elim o [ none ↦ (host ++ 58 ∷ port, []) | some r ↦ r ]) found
