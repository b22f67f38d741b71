-- ===== src/Ring.antt =====
-- chash.go: the ketama ring, its construction and the search in it.
-- crc32.ChecksumIEEE is a parameter. sort.SliceStable is the insertion sort, as a stable sort has one
-- result; sort.Search is the bisection of Go's library; strings.Index finds the first occurrence.
pub mod Order
pub mod First
pub mod Search
pub mod Address
use mathlib.Core.List.{reverse}
use cslb.Prelude.{
  ℕ, zero, suc, ◌+◌, ◌*◌, ◌/◌, ◌%◌, ◌^◌, ◌==◌, ltb, leb, Bool, ◌&&◌, if◌then◌else◌, List, [], ◌∷◌,
  ◌++◌, Option, none, some, length, get_elem?,
}
use cslb.Peer.{Heap}

abbrev pub consistent_replicas : ℕ
consistent_replicas = 160

pub record ChashPoint : Type 0 where
  pub hash : ℕ
  pub peer : ℕ

abbrev pub is_digit : ℕ → Bool
is_digit c = leb 48 c && leb c 57

-- `//` and the rest behind it.
unfoldable pub cut_slashes : List ℕ → Option (List ℕ)
cut_slashes (a ∷ b ∷ cs) = if a == 47 && b == 47 then some cs else none
cut_slashes (a ∷ []) = none
cut_slashes [] = none

-- What follows the first `://`.
unfoldable pub cut_scheme : List ℕ → Option (List ℕ)
unfolding cut_slashes
cut_scheme [] = none
cut_scheme (c ∷ cs) =
    let rest = cut_scheme cs in
    if c == 58 then (elim (cut_slashes cs) [ some r ↦ some r | none ↦ rest ]) else rest

unfoldable pub until_slash : List ℕ → List ℕ
until_slash [] = []
until_slash (c ∷ cs) = let rest = until_slash cs in if c == 47 then [] else c ∷ rest

unfoldable pub strip_url : List ℕ → List ℕ
unfolding cut_scheme until_slash
strip_url addr = elim (cut_scheme addr) [ none ↦ addr | some rest ↦ until_slash rest ]

-- The scan from the right, over the reversed address, with the digits that it has passed.
unfoldable pub scan_port : List ℕ → List ℕ → Option (List ℕ × List ℕ)
scan_port [] port = none
scan_port (c ∷ cs) port =
    let rest = scan_port cs (c ∷ port) in
    if c == 58 then some (reverse cs, port) else if is_digit c then rest else none

unfoldable pub split_ketama_host_port : List ℕ → List ℕ × List ℕ
unfolding strip_url scan_port
split_ketama_host_port addr =
    let a = strip_url addr in elim (scan_port (reverse a) []) [ none ↦ (a, []) | some r ↦ r ]

-- binary.LittleEndian.PutUint32
unfoldable pub little_endian : ℕ → List ℕ
little_endian n = n % 2 ^ 8 ∷ (n / 2 ^ 8) % 2 ^ 8 ∷ (n / 2 ^ 16) % 2 ^ 8 ∷ (n / 2 ^ 24) % 2 ^ 8 ∷ []

module _ (crc32 : List ℕ → ℕ) where
  -- The `n` points of a peer; `seed` is the buffer without its last four bytes.
  unfoldable pub point_loop : ℕ → List ℕ → ℕ → ℕ → List ChashPoint
  unfolding little_endian
  point_loop zero seed prev i = []
  point_loop (suc n) seed prev i =
      let h = crc32 (seed ++ little_endian prev) in
      record { hash = h; peer = i } ∷ point_loop n seed h i

  unfoldable pub generate_points : Heap → List ℕ → List ChashPoint
  unfolding point_loop split_ketama_host_port
  generate_points h [] = []
  generate_points h (i ∷ is) =
      let (host, port) = split_ketama_host_port (h i).addr in
      point_loop ((h i).weight * consistent_replicas) (host ++ 0 ∷ port) 0 i ++ generate_points h is

-- Before the points of the same hash, which come later in the list that is sorted.
unfoldable pub insert_point : ChashPoint → List ChashPoint → List ChashPoint
insert_point p [] = p ∷ []
insert_point p (q ∷ qs) =
    let rest = insert_point p qs in if ltb q.hash p.hash then q ∷ rest else p ∷ q ∷ qs

unfoldable pub sort_points : List ChashPoint → List ChashPoint
unfolding insert_point
sort_points [] = []
sort_points (p ∷ ps) = insert_point p (sort_points ps)

-- The loop of the deduplication, after the point that was kept last.
unfoldable pub dedupe_after : ChashPoint → List ChashPoint → List ChashPoint
dedupe_after last [] = []
dedupe_after last (q ∷ qs) =
    let dropped = dedupe_after last qs in
    let kept = dedupe_after q qs in if q.hash == last.hash then dropped else q ∷ kept

unfoldable pub dedupe : List ChashPoint → List ChashPoint
unfolding dedupe_after
dedupe [] = []
dedupe (p ∷ ps) = p ∷ dedupe_after p ps

unfoldable pub build_chash_ring : (List ℕ → ℕ) → Heap → List ℕ → List ChashPoint
build_chash_ring crc32 h peers = dedupe (sort_points (generate_points crc32 h peers))

-- An index out of range, where the code panics, reads as zero.
unfoldable pub hash_at : List ChashPoint → ℕ → ℕ
hash_at points k = elim (get_elem? points k) [ none ↦ 0 | some p ↦ p.hash ]

-- sort.Search between `i` and `j`; fuel above `j - i` is enough.
unfoldable pub search_points : ℕ → List ChashPoint → ℕ → ℕ → ℕ → ℕ
search_points zero points key i j = i
search_points (suc fuel) points key i j =
    let mid = (i + j) / 2 in
    let right = search_points fuel points key (mid + 1) j in
    let left = search_points fuel points key i mid in
    if ltb i j then (if leb key (hash_at points mid) then left else right) else i

unfoldable pub find_chash_start : List ChashPoint → ℕ → ℕ
find_chash_start points key =
    let n = length points in
    let index = search_points (suc n) points key 0 n in if index == n then 0 else index
