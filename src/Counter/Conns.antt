-- ===== src/Counter/Conns.antt =====
-- The counted connections of common/counter/conn.go: what each call adds to the storage of its user.
-- A call is given the number of bytes that the connection underneath has moved, `none` for its error.
use yunzes_node.Base.{
  ℕ, ◌+◌, ◌≡◌, refl, Option, none, some, List, [], ◌∷◌, ltb, if◌then◌else◌, arith,
}
use yunzes_node.Counter.{TrafficStorage}

-- ConnCounter.Read and Write, which count what has been moved also with an error: a number is stored.
unfoldable pub read : TrafficStorage → ℕ → TrafficStorage
read s n = record s { up = n }

unfoldable pub write : TrafficStorage → ℕ → TrafficStorage
write s n = record s { down = n }

unfoldable pub read_buffer : TrafficStorage → Option ℕ → TrafficStorage
read_buffer s none = s
read_buffer s (some n) = if ltb 0 n then record s { up = s.up + n } else s

unfoldable pub write_buffer : TrafficStorage → Option ℕ → TrafficStorage
write_buffer s none = s
write_buffer s (some n) = if ltb 0 n then record s { down = s.down + n } else s

-- PacketConnCounter.ReadPacket and WritePacket.
unfoldable pub read_packet : TrafficStorage → Option ℕ → TrafficStorage
read_packet s none = s
read_packet s (some n) = record s { up = s.up + n }

unfoldable pub write_packet : TrafficStorage → Option ℕ → TrafficStorage
write_packet s none = s
write_packet s (some n) = if ltb 0 n then record s { down = s.down + n } else s

pub data Move : Type 0 where
  by_buffer : Option ℕ → Option ℕ → Move
  by_packet : Option ℕ → Option ℕ → Move

-- A read and a write.
unfoldable pub apply : TrafficStorage → Move → TrafficStorage
apply s (by_buffer n m) = write_buffer (read_buffer s n) m
apply s (by_packet n m) = write_packet (read_packet s n) m

unfoldable pub apply_all : TrafficStorage → List Move → TrafficStorage
apply_all s [] = s
apply_all s (m ∷ ms) = apply_all (apply s m) ms

unfoldable pub read_all : TrafficStorage → ℕ → List ℕ → TrafficStorage
read_all s n [] = read s n
read_all s n (m ∷ ms) = read_all (read s n) m ms

abbrev moved : Option ℕ → ℕ
moved none = 0
moved (some n) = n

abbrev pub sum_up : List Move → ℕ
sum_up [] = 0
sum_up (by_buffer n m ∷ ms) = moved n + sum_up ms
sum_up (by_packet n m ∷ ms) = moved n + sum_up ms

abbrev pub sum_down : List Move → ℕ
sum_down [] = 0
sum_down (by_buffer n m ∷ ms) = moved m + sum_down ms
sum_down (by_packet n m ∷ ms) = moved m + sum_down ms

apply_lem :
    (s : TrafficStorage) (m : Move)
    → ((apply s m).up ≡ s.up + sum_up (m ∷ [])) × ((apply s m).down ≡ s.down + sum_down (m ∷ []))
unfolding apply read_buffer write_buffer read_packet write_packet
apply_lem s (by_buffer none none) = ground arith
apply_lem s (by_buffer none (some m)) = ground arith
apply_lem s (by_buffer (some n) none) = ground arith
apply_lem s (by_buffer (some n) (some m)) = ground arith
apply_lem s (by_packet none none) = ground arith
apply_lem s (by_packet none (some m)) = ground arith
apply_lem s (by_packet (some n) none) = ground arith
apply_lem s (by_packet (some n) (some m)) = ground arith

apply_all_lem :
    (s : TrafficStorage) (ms : List Move)
    → ((apply_all s ms).up ≡ s.up + sum_up ms) × ((apply_all s ms).down ≡ s.down + sum_down ms)
unfolding apply_all
apply_all_lem s [] = omega arith
apply_all_lem s (m ∷ ms) = ground (arith, apply_lem s m, apply_all_lem (apply s m) ms)

-- The last number of a list that starts with the given one.
abbrev pub last : ℕ → List ℕ → ℕ
last n [] = n
last n (m ∷ ms) = last m ms

read_all_lem : (s : TrafficStorage) (n : ℕ) (ms : List ℕ) → (read_all s n ms).up ≡ last n ms
unfolding read_all read
read_all_lem s n [] = refl
read_all_lem s n (m ∷ ms) = read_all_lem (read s n) m ms

-- Through buffers and packets, in any order, each count grows by the bytes that were moved without
-- an error; through plain reads, whatever was counted before, the count is that of the last read.
pub counts_lem :
    (s : TrafficStorage) (ms : List Move) (n : ℕ) (ns : List ℕ)
    → ((apply_all s ms).up ≡ s.up + sum_up ms)
      × ((apply_all s ms).down ≡ s.down + sum_down ms)
      × ((read_all s n ns).up ≡ last n ns)
counts_lem s ms n ns = let (up, down) = apply_all_lem s ms in (up, down, read_all_lem s n ns)
