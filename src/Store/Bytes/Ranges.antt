-- ===== src/Store/Bytes/Ranges.antt =====
-- Ranges of a buffer as lists, for the copy loops over them.
use zealos_aarch64_bringup.Base.{
  ℕ, zero, suc, ◌+◌, ◌<◌, ◌≡◌, refl, List, [], ◌∷◌, ◌++◌, arith, length, ap₂, ap,
}
use zealos_aarch64_bringup.Device.{Sector}
use zealos_aarch64_bringup.Store.Bytes.{set_byte, put_bytes, read_bytes}

pub length-read_bytes : (s : Sector) (k n : ℕ) → length (read_bytes s k n) ≡ n
unfolding read_bytes
length-read_bytes s k zero = refl
length-read_bytes s k (suc n) = omega (arith, length-read_bytes s (k + 1) n)

-- The same bytes, wherever they stand.
pub read_bytes_shift :
    (s t : Sector) (k j n : ℕ)
    → ((i : ℕ) → i < n → s (k + i) ≡ t (j + i))
    → read_bytes s k n ≡ read_bytes t j n
unfolding read_bytes
read_bytes_shift s t k j zero h = refl
read_bytes_shift s t k j (suc n) h =
    let here : s k ≡ t j = ground (arith, h 0) in
    let later : (i : ℕ) → i < n → s (k + 1 + i) ≡ t (j + 1 + i) =
      λ i lt. ground (arith, h (suc i)) in
    ap₂ (λ (c : ℕ) (cs : List ℕ). c ∷ cs) here (read_bytes_shift s t (k + 1) (j + 1) n later)

pub read_bytes-append :
    (s : Sector) (k m n : ℕ) → read_bytes s k (m + n) ≡ read_bytes s k m ++ read_bytes s (k + m) n
unfolding read_bytes
read_bytes-append s k zero n =
    let z : 0 + n ≡ n = omega arith in let k0 : k + 0 ≡ k = omega arith in rw (z, k0)
read_bytes-append s k (suc m) n =
    let z : suc m + n ≡ suc (m + n) = omega arith in
    let e : k + suc m ≡ k + 1 + m = omega arith in
    rw (z, e) (ap (λ l. s k ∷ l) (read_bytes-append s (k + 1) m n))

pub put_bytes-append :
    (s : Sector) (k : ℕ) (xs ys : List ℕ)
    → put_bytes s k (xs ++ ys) ≡ put_bytes (put_bytes s k xs) (k + length xs) ys
unfolding put_bytes
put_bytes-append s k [] ys = let k0 : k + 0 ≡ k = omega arith in rw k0
put_bytes-append s k (x ∷ xs) ys =
    let e : k + suc (length xs) ≡ k + 1 + length xs = omega arith in
    rw e (put_bytes-append (set_byte s k x) (k + 1) xs ys)
