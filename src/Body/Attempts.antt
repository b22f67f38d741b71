-- ===== src/Body/Attempts.antt =====
-- What the attempts read from the bodies that a getBody gives them, one after the other.
use cslb.Prelude.{ℕ, ◌+◌, ◌≡◌, refl, List, [], ◌∷◌, Option, none, some, length}
use cslb.Http.{Failure}
use cslb.Body.{
  File, GetBody, callers_own, no_body, rewound, buffered, from_file, Opened, own_reader, same_file,
  theirs, not_opened, reopen, call_get_body, take, drop,
}

-- An attempt: what Seek returns when its getBody is called, and how many bytes it asks for.
pub record Use : Type 0 where
  pub seek : Option Failure
  pub wanted : ℕ

-- What it gets: bytes, what the caller's own GetBody gives, or getBody's error.
pub data Got : Type 0 where
  bytes : List ℕ → Got
  foreign_bytes : Got
  nothing : Failure → Got

-- Reading `n` bytes of a file, or what is left.
unfoldable pub read_file : ℕ → File → List ℕ × File
unfolding drop take
read_file n f =
    let b = take n (drop f.offset f.content) in (b, record f { offset = f.offset + length b })

-- Reading from what getBody has returned; the captured file moves on.
unfoldable pub read_opened : ℕ → Opened × GetBody → Got × GetBody
unfolding read_file
read_opened n (own_reader b, g) = (bytes (take n b), g)
read_opened n (theirs, g) = (foreign_bytes, g)
read_opened n (not_opened e, g) = (nothing e, g)
read_opened n (same_file, rewound start f) =
    let (b, rest) = read_file n f in (bytes b, rewound start rest)
read_opened n (same_file, from_file f) = let (b, rest) = read_file n f in (bytes b, from_file rest)
read_opened n (same_file, buffered b) = (bytes [], buffered b)
read_opened n (same_file, no_body) = (bytes [], no_body)
read_opened n (same_file, callers_own) = (bytes [], callers_own)

unfoldable pub use_body : Use → GetBody → Got × GetBody
unfolding read_opened call_get_body
use_body u g = read_opened u.wanted (call_get_body u.seek g)

-- An attempt gets what it asks for from the beginning of the content, unless Seek has failed.
abbrev pub IsServed : List ℕ → Use → Got → Type 0
IsServed content u (bytes b) = b ≡ take u.wanted content
IsServed content u foreign_bytes = ⊥
IsServed content u (nothing e) = u.seek ≡ some e

-- So does each of several attempts.
abbrev pub AllServed : List ℕ → List Use → GetBody → Type 0
AllServed content [] g = Unit {0}
AllServed content (u ∷ us) g =
    IsServed content u (use_body u g).0 × AllServed content us (use_body u g).1

pub buffered-AllServed : (b : List ℕ) (us : List Use) → AllServed b us (buffered b)
unfolding use_body read_opened call_get_body
buffered-AllServed b [] = tt
buffered-AllServed b (u ∷ us) = (refl, buffered-AllServed b us)

pub no_body-AllServed : (us : List Use) → AllServed [] us no_body
unfolding use_body read_opened call_get_body
no_body-AllServed [] = tt
no_body-AllServed (u ∷ us) = (refl, no_body-AllServed us)

-- Wherever the attempts before have left the file.
pub from_file-AllServed :
    (content : List ℕ) (offset : ℕ) (us : List Use)
    → AllServed content us (from_file (record { content = content; offset = offset }))
unfolding use_body read_opened call_get_body reopen read_file drop
from_file-AllServed content offset [] = tt
from_file-AllServed content offset (u ∷ us) =
    by_seek u.seek refl (λ n. from_file-AllServed content n us)
  where
    by_seek :
        (o : Option Failure)
        → u.seek ≡ o
        → ((n : ℕ) → AllServed content us (from_file (record { content = content; offset = n })))
        → let g : GetBody = from_file (record { content = content; offset = offset }) in
          let r = read_opened u.wanted (call_get_body o g) in
          IsServed content u r.0 × AllServed content us r.1
    by_seek none q later = (refl, later _)
    by_seek (some e) q later = (q, later offset)

pub rewound-AllServed :
    (start : ℕ) (content : List ℕ) (offset : ℕ) (us : List Use)
    → AllServed
        (drop start content)
        us
        (rewound start (record { content = content; offset = offset }))
unfolding use_body read_opened call_get_body reopen read_file
rewound-AllServed start content offset [] = tt
rewound-AllServed start content offset (u ∷ us) =
    by_seek u.seek refl (λ n. rewound-AllServed start content n us)
  where
    by_seek :
        (o : Option Failure)
        → u.seek ≡ o
        → ((n : ℕ)
            → AllServed
                (drop start content)
                us
                (rewound start (record { content = content; offset = n })))
        → let g : GetBody = rewound start (record { content = content; offset = offset }) in
          let r = read_opened u.wanted (call_get_body o g) in
          IsServed (drop start content) u r.0 × AllServed (drop start content) us r.1
    by_seek none q later = (refl, later _)
    by_seek (some e) q later = (q, later offset)
