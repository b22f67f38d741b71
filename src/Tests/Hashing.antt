-- ===== src/Tests/Hashing.antt =====
-- Examples for the hash, ip_hash and random pickers.
use cslb.Prelude.{ℕ, ◌+◌, ◌*◌, ◌%◌, ◌<◌, ◌≡◌, refl, true, [], ◌∷◌, none, some, length, arith}
use native.Mathlib.Nat.{mod-lt}
use cslb.Peer.{init}
use cslb.Group.{Groups, init_all}
use cslb.RoundRobin.{new_rr_picker}
use cslb.RoundRobin.Safe.{IsSafe}
use cslb.Slot.{slot}
use cslb.Slot.Laws.{slot-append}
use cslb.Smooth.Spec.{sum_ℕ}
use cslb.Hash.{HashLib, Times, HashPicker, new_picker_for_key}
use cslb.Hash
use cslb.Hash.Safety.{hash_pick-IsSafe}
use cslb.IpHash.{NetLib, IpHashPicker, new_picker_for_ip, fold_addr}
use cslb.IpHash
use cslb.IpHash.Safety.{fold_addr-nginx_hash, ip_hash_pick-IsSafe, nginx_hash}
use cslb.Random.{RandomPicker, build_ranges, random_select, new_picker}
use cslb.Random
use cslb.Random.Ranges.{random_select-slot}
use cslb.Random.Safety.{random_pick-IsSafe}
use cslb.Tests.{memory, primaries, primary, backup, request, request-IsSound}

-- Of the weights 5, 1 and 1, the number 5 is the second server's.
slot-append_example : slot memory primaries 5 ≡ some 1
unfolding init_all init sum_ℕ
slot-append_example = slot-append memory (0 ∷ []) (2 ∷ []) 1 5 (omega arith) (omega arith)

random_select-slot_example :
    random_select (build_ranges memory primaries 0) 7 6 ≡ slot memory primaries 6
unfolding init_all init sum_ℕ
random_select-slot_example = random_select-slot memory primaries 6 (omega arith)

-- 10.0.0
fold_addr-nginx_hash_example :
    (fold_addr (10 ∷ 0 ∷ 0 ∷ []) 89 ≡ nginx_hash (10 ∷ 0 ∷ 0 ∷ []) 89)
    × (fold_addr (10 ∷ 0 ∷ 0 ∷ []) 89 < 6271)
fold_addr-nginx_hash_example =
    fold_addr-nginx_hash (10 ∷ 0 ∷ 0 ∷ []) 89 (omega arith, (omega arith, (omega arith, tt)))
      (omega arith)

abbrev times : Times
times = record { now = 5; check = λ k. 6 + k; fallback = 40; later = 41 }

-- A checksum and a printer to run the code with.
abbrev hash_lib : HashLib
hash_lib = record { crc32 = λ bs. length bs * 98_765; itoa = λ n. n ∷ [] }

abbrev by_key : HashPicker
by_key = record { ctx = request; key = 7 ∷ 8 ∷ []; hash_tries = 0; rehash = 0; hash = 0 }

hash_pick-IsSafe_example : IsSafe request (Hash.Safety.core (Hash.pick hash_lib times by_key))
hash_pick-IsSafe_example = hash_pick-IsSafe hash_lib times by_key request-IsSound

abbrev net_lib : NetLib
net_lib = record { to_4 = λ ip. some ip; to_16 = λ ip. none }

abbrev by_ip : IpHashPicker
by_ip = record { ctx = request; client_ip = 10 ∷ 0 ∷ 0 ∷ 1 ∷ []; hash = 89; tries = 0 }

ip_hash_pick-IsSafe_example : IsSafe request (IpHash.Safety.core (IpHash.pick net_lib times by_ip))
ip_hash_pick-IsSafe_example = ip_hash_pick-IsSafe net_lib times by_ip request-IsSound

abbrev groups : Groups
groups = record { primary = primary; backup = some backup }

abbrev intn : ℕ → ℕ → ℕ
intn k n = (k * 3) % n

intn-below : (k n : ℕ) → 0 < n → intn k n < n
intn-below k n p = mod-lt (k * 3) p

random_pick-IsSafe_example :
    IsSafe request (Random.Safety.core (Random.pick intn times (new_picker memory groups true)))
unfolding new_picker new_rr_picker init_all init sum_ℕ
random_pick-IsSafe_example =
    random_pick-IsSafe intn intn-below times (new_picker memory groups true)
      (record { sound = request-IsSound; ranges = refl; total = refl; positive = omega arith })
