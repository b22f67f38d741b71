-- ===== src/Body.antt =====
-- transport.go: prepareBody, which makes a request's body available to each attempt.
-- A body is a list of bytes. What a Seeker, a temporary file and the reader of a body report is given.
pub mod Attempts
pub mod Replay
pub mod Seekable
use cslb.Prelude.{
  ℕ, zero, suc, ◌+◌, ◌-◌, ◌^◌, ◌%◌, ◌==◌, ltb, leb, Bool, true, false, not, ◌&&◌, if◌then◌else◌, ℤ,
  pos, ltb_ℤ, List, [], ◌∷◌, ◌++◌, Option, none, some, length,
}
use cslb.Http.{Failure}

-- The errors of os.CreateTemp and of a file's methods; the `copy` is that of writing.
pub record FileLib : Type 0 where
  pub create : Option Failure
  pub write : Option Failure
  pub copy : Option Failure
  pub seek : Option Failure
  pub stat : Option Failure

-- A body without Seek: what it has to say, and the error with which it ends, if not EOF.
pub record Stream : Type 0 where
  pub content : List ℕ
  pub broken : Option Failure

-- A file, or another body with Seek: all that it has to say from position zero, and the position.
pub record File : Type 0 where
  pub content : List ℕ
  pub offset : ℕ

-- A body with Seek: its content, the error of the first call or the position, the end unless that
-- call fails, and the error of seeking back.
pub record Seeker : Type 0 where
  pub content : List ℕ
  pub tell : Option Failure
  pub start : ℕ
  pub ending : Option ℕ
  pub back : Option Failure

pub data Body : Type 0 where
  seekable : Seeker → Body
  streaming : Stream → Body

-- The fields of the request that prepareBody reads: whether GetBody is set, Body, and ContentLength.
pub record BodyRequest : Type 0 where
  pub own_get_body : Bool
  pub body : Option Body
  pub content_length : ℤ

unfoldable pub take : ℕ → List ℕ → List ℕ
take zero xs = []
take (suc n) [] = []
take (suc n) (x ∷ xs) = x ∷ take n xs

unfoldable pub drop : ℕ → List ℕ → List ℕ
drop zero xs = xs
drop (suc n) [] = []
drop (suc n) (x ∷ xs) = drop n xs

-- What readBody gives: the bytes, the file, or an error.
pub data Read : Type 0 where
  in_memory : List ℕ → Read
  in_file : File → Read
  read_error : Failure → Read

-- How many bytes LimitReader(r, limit+1) lets through: the sum is an int64, and LimitReader reads
-- nothing for one that is not positive.
unfoldable pub read_bound : ℕ → ℕ
read_bound limit = let n = (limit + 1) % 2 ^ 64 in if ltb n (2 ^ 63) then n else 0

-- io.ReadAll of the limited reader: its error is none if the limit ends it.
unfoldable pub read_error_within : ℕ → Stream → Option Failure
read_error_within n s = if leb n (length s.content) then none else s.broken

-- The calls on the file; that a failure closes and removes it is not in the result. An error of the
-- reader counts before one of the writer.
unfoldable pub spill : FileLib → List ℕ → Stream → Read
spill lib b rest = elim lib.create [
  | some e ↦ read_error e
  | none ↦ elim lib.write [
    | some e ↦ read_error e
    | none ↦ elim rest.broken [
      | some e ↦ read_error e
      | none ↦ elim lib.copy [
        | some e ↦ read_error e
        | none ↦ elim lib.seek [
          | some e ↦ read_error e
          | none ↦ in_file (record { content = b ++ rest.content; offset = 0 })
        ]
      ]
    ]
  ]
]

-- readBodyWithFactory
unfoldable pub read_body : FileLib → ℕ → Stream → Read
unfolding read_bound read_error_within spill
read_body lib limit s =
    let n = read_bound limit in
    let b = take n s.content in
    elim (read_error_within n s) [
      | some e ↦ read_error e
      | none ↦
          if leb (length b) limit
          then in_memory b
          else spill lib b (record { content = drop n s.content; broken = s.broken })
    ]

-- A getBody function, by what it has captured: the caller's own, one that returns http.NoBody, one on
-- a body with Seek and its first position, one on the bytes, and one on the temporary file. The body
-- with Seek and the file are one for all attempts, in the state in which the last one has left it.
pub data GetBody : Type 0 where
  callers_own no_body : GetBody
  rewound : ℕ → File → GetBody
  buffered : List ℕ → GetBody
  from_file : File → GetBody

-- What a getBody returns: a reader of its own with the bytes that it gives, the captured file behind
-- io.NopCloser, what the caller's GetBody gives, or an error.
pub data Opened : Type 0 where
  own_reader : List ℕ → Opened
  same_file : Opened
  theirs : Opened
  not_opened : Failure → Opened

-- `f.Seek(start, io.SeekStart)`, and then the same file again.
unfoldable pub reopen : (File → GetBody) → ℕ → File → Option Failure → Opened × GetBody
reopen g start f (some e) = (not_opened e, g f)
reopen g start f none = (same_file, g (record f { offset = start }))

-- One call of a getBody, whose Seek returns `seek`.
unfoldable pub call_get_body : Option Failure → GetBody → Opened × GetBody
unfolding reopen
call_get_body seek callers_own = (theirs, callers_own)
call_get_body seek no_body = (own_reader [], no_body)
call_get_body seek (buffered b) = (own_reader b, buffered b)
call_get_body seek (rewound start f) = reopen (rewound start) start f seek
call_get_body seek (from_file f) = reopen from_file 0 f seek

-- The results of prepareBody, the length that it sets, and when the body is closed: by prepareBody, or
-- by the cleanup, which may also close and remove the file.
pub record Prepared : Type 0 where
  pub get_body : Option GetBody
  pub err : Option Failure
  pub content_length : ℤ
  pub closed : Bool
  pub cleanup_closes : Bool
  pub cleanup_removes : Bool

abbrev pub failed_body : ℤ → Failure → Prepared
failed_body n e = record {
  get_body = none;
  err = some e;
  content_length = n;
  closed = true;
  cleanup_closes = false;
  cleanup_removes = false;
}

abbrev pub replayed : Option GetBody → ℤ → Bool → Bool → Bool → Prepared
replayed g n closed closes removes = record {
  get_body = g;
  err = none;
  content_length = n;
  closed = closed;
  cleanup_closes = closes;
  cleanup_removes = removes;
}

-- With the end known: a stale ContentLength is brought down to what remains. The body is at its first
-- position again.
unfoldable pub clamp : ℤ → File → ℕ → Prepared
clamp n f ending =
    let remaining = ending - f.offset in
    if remaining == 0 && ltb_ℤ (pos 0) n
    then replayed (some no_body) (pos 0) false true false
    else if ltb 0 remaining && ltb_ℤ (pos remaining) n
    then replayed (some (rewound f.offset f)) (pos remaining) false true false
    else replayed (some (rewound f.offset f)) n false true false

unfoldable pub prepare_seekable : ℤ → Seeker → Prepared
unfolding clamp
prepare_seekable n s =
    let f : File = record { content = s.content; offset = s.start } in
    elim s.tell [
      | some e ↦ failed_body n e
      | none ↦ elim s.ending [
        | none ↦ replayed (some (rewound s.start f)) n false true false
        | some ending ↦ elim s.back [ some e ↦ failed_body n e | none ↦ clamp n f ending ]
      ]
    ]

-- prepareSpilledBody
unfoldable pub prepare_spilled : FileLib → ℤ → File → Prepared
prepare_spilled lib n f = elim lib.stat [
  | some e ↦ failed_body n e
  | none ↦ replayed (some (from_file f)) (pos (length f.content)) true false true
]

unfoldable pub prepare_read : FileLib → ℤ → Read → Prepared
unfolding prepare_spilled
prepare_read lib n (read_error e) = failed_body n e
prepare_read lib n (in_file f) = prepare_spilled lib n f
prepare_read lib n (in_memory b) = replayed (some (buffered b)) (pos (length b)) true false false

unfoldable pub prepare_given : FileLib → ℕ → Bool → ℤ → Body → Prepared
unfolding prepare_seekable prepare_read read_body
prepare_given lib limit replay_possible n (seekable s) = prepare_seekable n s
prepare_given lib limit replay_possible n (streaming s) =
    if replay_possible
    then prepare_read lib n (read_body lib limit s)
    else replayed none n false true false

-- prepareBody, with maxBodyBuffer.
unfoldable pub prepare_body : FileLib → ℕ → Bool → BodyRequest → Prepared
unfolding prepare_given
prepare_body lib limit replay_possible r = elim r.body [
  | none ↦
      if r.own_get_body
      then replayed (some callers_own) r.content_length false false false
      else replayed none r.content_length false false false
  | some b ↦
      if r.own_get_body
      then replayed (some callers_own) r.content_length false true false
      else prepare_given lib limit replay_possible r.content_length b
]
