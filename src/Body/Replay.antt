-- ===== src/Body/Replay.antt =====
-- What a prepared body replays.
use cslb.Prelude.{
  ℕ, zero, suc, ◌^◌, ◌<◌, ◌≤◌, ◌≡◌, refl, subst, ap, leb, true, false, not, if◌then◌else◌, if_cases,
  ℤ, pos, List, [], ◌∷◌, ◌++◌, Option, none, some, length, arith,
}
use cslb.Http.{Failure}
use cslb.Body.Attempts.{Use, AllServed, buffered-AllServed, from_file-AllServed}
use cslb.Body.{
  FileLib, Stream, streaming, take, drop, Read, in_memory, in_file, read_error, read_bound,
  read_error_within, spill, read_body, GetBody, buffered, from_file, Prepared, failed_body,
  replayed, prepare_spilled, prepare_read, prepare_given, prepare_body,
}

take-drop : (n : ℕ) (xs : List ℕ) → take n xs ++ drop n xs ≡ xs
unfolding take drop
take-drop zero xs = refl
take-drop (suc n) [] = refl
take-drop (suc n) (x ∷ xs) = ap (λ ys. x ∷ ys) (take-drop n xs)

take-all : (n : ℕ) (xs : List ℕ) → length (take n xs) < n → take n xs ≡ xs
unfolding take
take-all zero xs l = absurd (omega (arith, l))
take-all (suc n) [] l = refl
take-all (suc n) (x ∷ xs) l = ap (λ ys. x ∷ ys) (take-all n xs (omega (arith, l)))

-- Below the largest int64, the sum does not wrap.
read_bound-suc : (limit : ℕ) → suc limit < 2 ^ 63 → read_bound limit ≡ suc limit
unfolding read_bound
read_bound-suc limit l = ground arith

-- What readBody has read: all of the content, in memory up to the limit.
abbrev pub Holds : ℕ → List ℕ → Read → Type 0
Holds limit content (in_memory b) = (b ≡ content) × (length b ≤ limit)
Holds limit content (in_file f) = (f.content ≡ content) × (limit < length f.content)
Holds limit content (read_error e) = Unit {0}

length-take-le : (n : ℕ) (xs : List ℕ) → length (take n xs) ≤ length xs
unfolding take
length-take-le zero xs = omega arith
length-take-le (suc n) [] = omega arith
length-take-le (suc n) (x ∷ xs) = omega (arith, length-take-le n xs)

spill-Holds :
    (lib : FileLib) (limit n : ℕ) (s : Stream)
    → limit < length (take n s.content)
    → Holds limit s.content
        (spill lib (take n s.content) (record { content = drop n s.content; broken = s.broken }))
unfolding spill
spill-Holds lib limit n s l = by_calls lib.create lib.write s.broken lib.copy lib.seek
  where
    by_calls :
        (create write broken copy seek : Option Failure)
        → Holds limit s.content (elim create [
          | some e ↦ read_error e
          | none ↦ elim write [
            | some e ↦ read_error e
            | none ↦ elim broken [
              | some e ↦ read_error e
              | none ↦ elim copy [
                | some e ↦ read_error e
                | none ↦ elim seek [
                  | some e ↦ read_error e
                  | none ↦
                      in_file
                        (record { content = take n s.content ++ drop n s.content; offset = 0 })
                ]
              ]
            ]
          ]
        ])
    by_calls (some e) w b c k = tt
    by_calls none (some e) b c k = tt
    by_calls none none (some e) c k = tt
    by_calls none none none (some e) k = tt
    by_calls none none none none (some e) = tt
    by_calls none none none none none =
        let whole = take-drop n s.content in
        (whole, omega (arith, l, ap length whole, length-take-le n s.content))

read_body-Holds :
    (lib : FileLib) (limit : ℕ) (s : Stream)
    → suc limit < 2 ^ 63
    → Holds limit s.content (read_body lib limit s)
unfolding read_body
read_body-Holds lib limit s l = by_error (read_error_within n s)
  where
    n : ℕ
    n = read_bound limit

    b : List ℕ
    b = take n s.content

    by_error :
        (o : Option Failure)
        → Holds limit s.content (elim o [
          | some e ↦ read_error e
          | none ↦
              if leb (length b) limit
              then in_memory b
              else spill lib b (record { content = drop n s.content; broken = s.broken })
        ])
    by_error (some e) = tt
    by_error none =
        if_cases (Holds limit s.content) (leb (length b) limit)
          (λ y.
            (take-all n s.content (ground (arith, read_bound-suc limit l, y)), ground (arith, y)))
          (λ m. spill-Holds lib limit n s (ground (arith, m)))

-- The body is closed once, by now or by the cleanup; and without an error, the attempts are served with
-- the content, and ContentLength is its length.
pub record IsPrepared (content : List ℕ) (r : Prepared) : Type 0 where
  pub closes_once : r.cleanup_closes ≡ not r.closed
  pub replays :
      r.err ≡ none
      → (g : GetBody) × (r.get_body ≡ some g) × ((us : List Use) → AllServed content us g)
  pub measures : r.err ≡ none → r.content_length ≡ pos (length content)

failed-IsPrepared : (content : List ℕ) (n : ℤ) (e : Failure) → IsPrepared content (failed_body n e)
failed-IsPrepared content n e = record { closes_once = refl; replays = λ q. cc; measures = λ q. cc }

prepare_read-IsPrepared :
    (lib : FileLib) (limit : ℕ) (n : ℤ) (content : List ℕ) (r : Read)
    → Holds limit content r
    → IsPrepared content (prepare_read lib n r)
unfolding prepare_read prepare_spilled
prepare_read-IsPrepared lib limit n content (read_error e) h = failed-IsPrepared content n e
prepare_read-IsPrepared lib limit n content (in_memory b) h = record {
  closes_once = refl;
  replays = λ q. (
    buffered b,
    refl,
    λ us. subst (λ c. AllServed c us (buffered b)) h.0 (buffered-AllServed b us),
  );
  measures = λ q. ap (λ c. pos (length c)) h.0;
}
prepare_read-IsPrepared lib limit n content (in_file f) h = by_stat lib.stat
  where
    by_stat :
        (o : Option Failure)
        → IsPrepared content (elim o [
          | some e ↦ failed_body n e
          | none ↦ replayed (some (from_file f)) (pos (length f.content)) true false true
        ])
    by_stat (some e) = failed-IsPrepared content n e
    by_stat none = record {
      closes_once = refl;
      replays = λ q. (
        from_file f,
        refl,
        λ us.
            subst (λ c. AllServed c us (from_file f)) h.0
              (from_file-AllServed f.content f.offset us),
      );
      measures = λ q. ap (λ c. pos (length c)) h.0;
    }

-- A body without Seek and a request without GetBody that may need a replay, for a buffer size below the
-- largest int64: the body is closed exactly once, by prepareBody or by the cleanup, also on an error.
-- If there is no error, ContentLength is the length of the content, and getBody may be called by any
-- number of attempts one after the other: however much of the body the attempts before have read, also
-- from the one temporary file that they share, each reads the content from its first byte on and
-- nothing else, unless getBody returns the error of its Seek.
pub prepare_body-IsPrepared :
    (lib : FileLib) (limit : ℕ) (n : ℤ) (s : Stream)
    → suc limit < 2 ^ 63
    → IsPrepared s.content (
        prepare_body lib limit true
          (record { own_get_body = false; body = some (streaming s); content_length = n }))
unfolding prepare_body prepare_given
prepare_body-IsPrepared lib limit n s l =
    prepare_read-IsPrepared lib limit n s.content (read_body lib limit s)
      (read_body-Holds lib limit s l)
