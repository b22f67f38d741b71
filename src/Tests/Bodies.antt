-- ===== src/Tests/Bodies.antt =====
-- Tests and examples for request bodies.
use cslb.Prelude.{◌≡◌, refl, false, true, pos, ◌-◌, ◌^◌, [], ◌∷◌, none, some, arith}
use cslb.Body.{
  FileLib, Stream, read_body, in_memory, in_file, take, drop, streaming, prepare_body, Seeker, drop,
}
use cslb.Body.Replay.{IsPrepared, prepare_body-IsPrepared}

abbrev files : FileLib
files = record { create = none; write = none; copy = none; seek = none; stat = none }

abbrev upload : Stream
upload = record { content = 1 ∷ 2 ∷ 3 ∷ []; broken = none }

kept : read_body files 3 upload ≡ in_memory (1 ∷ 2 ∷ 3 ∷ [])
unfolding read_body take
kept = refl

spilled : read_body files 2 upload ≡ in_file (record { content = 1 ∷ 2 ∷ 3 ∷ []; offset = 0 })
unfolding read_body take drop
spilled = refl

-- For the largest limit the sum limit+1 wraps, and nothing is read.
largest_limit : read_body files (2 ^ 63 - 1) upload ≡ in_memory []
unfolding read_body take
largest_limit = refl

prepare_body-IsPrepared_example : IsPrepared (1 ∷ 2 ∷ 3 ∷ []) (
    prepare_body files 2 true
      (record { own_get_body = false; body = some (streaming upload); content_length = pos 9 }))
prepare_body-IsPrepared_example = prepare_body-IsPrepared files 2 (pos 9) upload (omega arith)

-- The caller has read one byte of three, and declares three.
abbrev rest_of_file : Seeker
rest_of_file = record {
  content = 1 ∷ 2 ∷ 3 ∷ [];
  tell = none;
  start = 1;
  ending = some 3;
  back = none;
}
