-- ===== src/Xdr/Tests/Vectors.antt =====
-- A vector of unsigned integers with at most four elements.
use goxdr.Prelude.{ℕ, ◌^◌, ◌<◌, [], ◌∷◌, ◌++◌, List, Bytes, ◌≡◌, refl, arith}
use goxdr.Xdr.Fault.{Result, ok}
use goxdr.Xdr.Codec.{put32, get32, read_into, uint32}
use goxdr.Xdr.Codec.RoundTrip.{get32-put32}
use goxdr.Xdr.Vec.Bounds.{Resized, set_vec_len_lem}
use goxdr.Xdr.Vec.{set_vec_len, Slice, recurse, read_size, write_size}
use goxdr.Xdr.Vec.RoundTrip.{put_vec, recurse-recurse}

abbrev get_item : ℕ → Bytes → Result (ℕ × Bytes)
get_item old = get32

abbrev set_item : ℕ → Bytes → Result (ℕ × Bytes)
set_item x out = ok (x, out ++ put32 x)

recurse-recurse_example :
    ((out : Bytes)
      → recurse 4 0 write_size set_item (record { items = 7 ∷ 8 ∷ []; spare = [] }) out
        ≡ ok (record { items = 7 ∷ 8 ∷ []; spare = [] }, out ++ put_vec put32 (7 ∷ 8 ∷ [])))
    × ((w : Slice ℕ) (s : Bytes)
        → (rest : List ℕ) × (recurse 4 0 (read_size 4) get_item w (put_vec put32 (7 ∷ 8 ∷ []) ++ s)
            ≡ ok (record { items = 7 ∷ 8 ∷ []; spare = rest }, s)))
recurse-recurse_example =
    recurse-recurse 4 0 put32 (λ x. x < 2 ^ 32) get_item set_item (λ old x s h. get32-put32 x s h)
      (λ x out. refl) (7 ∷ 8 ∷ []) [] (omega arith, (omega arith, tt)) (omega arith) (omega arith)

-- Reading it into a slice of one element, whose array is too short.
read_back :
    recurse 4 0
      (read_size 4)
      get_item
      (record { items = 1 ∷ []; spare = [] })
      (0 ∷ 0 ∷ 0 ∷ 2 ∷ 0 ∷ 0 ∷ 0 ∷ 7 ∷ 0 ∷ 0 ∷ 0 ∷ 8 ∷ 5 ∷ [])
    ≡ ok (record { items = 7 ∷ 8 ∷ []; spare = [] }, 5 ∷ [])
unfolding recurse read_size get32 read_into uint32
read_back = refl

set_vec_len_example :
    (w : Slice ℕ) × (set_vec_len 5 0 4 (record { items = 7 ∷ 8 ∷ 9 ∷ []; spare = [] }) ≡ ok w)
    × Resized 5 0 4 (record { items = 7 ∷ 8 ∷ 9 ∷ []; spare = [] }) w
set_vec_len_example =
    set_vec_len_lem 5 0 4 (record { items = 7 ∷ 8 ∷ 9 ∷ []; spare = [] }) (omega arith)
