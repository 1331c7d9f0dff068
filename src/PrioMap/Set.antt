-- ===== src/PrioMap/Set.antt =====
-- The two-level map as the set of priorities that it stands for.
use Prim.Native.Nat.{bit_and, bit_or, bit_and-bitwise}
use fos.Prelude.{
  ℕ, ◌+◌, ◌-◌, ◌*◌, ◌/◌, ◌%◌, ◌^◌, ◌<◌, ◌≡◌, ◌≢◌, ap, Bool, true, false, not, ◌&&◌, arith, ◌==◌,
  get_or, update,
}
use native.Mathlib.Decide.{dec_lt}
use fos.PrioMap.{PrioMap, bitmap, bitmap_set, bitmap_get, bitmap_clear}
use fos.PrioMap.Bytes.{test_bit, bitmap-lowest, test_bit-or, test_bit-and, test_bit-zero}

-- The map holds exactly the priorities that `ready` marks.
pub record Holds (m : PrioMap) (ready : ℕ → Bool) : Type 0 where
  pub y_byte : m.y < 256
  pub c_byte : (b : ℕ) → b < 8 → m.c b < 256
  pub low : (b a : ℕ) → b < 8 → a < 8 → test_bit (m.c b) a ≡ ready (b * 8 + a)
  pub high : (b : ℕ) → b < 8 → test_bit m.y b ≡ not (m.c b == 0)

-- A priority is its byte and its bit.
index :
    (prio b a : ℕ)
    → prio < 64
    → a < 8
    → (prio / 8 % 256 ≡ prio / 8)
      × (prio / 8 < 8)
      × (prio % 8 < 8)
      × ((b * 8 + a) == prio ≡ ((b == prio / 8) && (a == prio % 8)))
index prio b a lt ha = (omega arith, omega arith, omega arith, ground arith)

or_ne_zero : (x a : ℕ) → x < 256 → a < 8 → bit_or x (2 ^ a) ≢ 0
or_ne_zero x a hx ha e =
    let t : test_bit (bit_or x (2 ^ a)) a ≡ test_bit 0 a = ap (λ n. test_bit n a) e in
    ground (arith, t, test_bit-or x a a hx ha ha, test_bit-zero a ha)

zero-bit_and : (x k : ℕ) → x ≡ 0 → bit_and x k ≡ 0
zero-bit_and x k e = rw e (bit_and-bitwise 0 k)

module _ {m : PrioMap} {ready : ℕ → Bool} (h : Holds m ready) where
  -- Setting a priority below 64 adds it to the set.
  pub Holds-bitmap_set : (prio : ℕ) → prio < 64 → Holds (bitmap_set m prio) (update ready prio true)
  unfolding bitmap_set
  Holds-bitmap_set prio lt = record {
    y_byte = omega arith;
    c_byte = λ b hb. ground (arith, h.c_byte b hb, test_bit-or (m.c b) (prio % 8) 0);
    low = λ b a hb ha. ground (
      arith,
      h.low b a hb ha,
      h.c_byte b hb,
      test_bit-or (m.c b) (prio % 8) a,
      index prio b a lt ha,
    );
    high = λ b hb. ground (
      arith,
      h.high b hb,
      h.c_byte b hb,
      h.y_byte,
      or_ne_zero (m.c b) (prio % 8),
      test_bit-or m.y (prio / 8) b,
      index prio b 0 lt,
    );
  }

  -- Clearing a priority below 64 removes it from the set.
  pub Holds-bitmap_clear :
      (prio : ℕ) → prio < 64 → Holds (bitmap_clear m prio) (update ready prio false)
  unfolding bitmap_clear
  Holds-bitmap_clear prio lt = record {
    y_byte = ground (arith, h.y_byte, test_bit-and m.y (prio / 8) 0);
    c_byte = λ b hb. ground (arith, h.c_byte b hb, test_bit-and (m.c b) (prio % 8) 0);
    low = λ b a hb ha. ground (
      arith,
      h.low b a hb ha,
      h.c_byte b hb,
      test_bit-and (m.c b) (prio % 8) a,
      index prio b a lt ha,
    );
    high = λ b hb. ground (
      arith,
      h.high b hb,
      h.c_byte b hb,
      h.y_byte,
      test_bit-and m.y (prio / 8) b,
      index prio b 0 lt,
      zero-bit_and (m.c b) (2 ^ 32 - 1 - 2 ^ (prio % 8)),
    );
  }

  -- A priority of a byte that is zero is not ready.
  ready-zero : (q : ℕ) → q < 64 → m.c (q / 8) ≡ 0 → ready q ≡ false
  ready-zero q lt z =
      let t : test_bit (m.c (q / 8)) (q % 8) ≡ test_bit 0 (q % 8) =
        ap (λ n. test_bit n (q % 8)) z in
      let e : q / 8 * 8 + q % 8 ≡ q = omega arith in
      ground (
        arith,
        t,
        test_bit-zero (q % 8) (omega arith),
        h.low (q / 8) (q % 8) (omega arith) (omega arith),
        e,
      )

  y_ne_zero : (p : ℕ) → p < 64 → ready p ≡ true → m.y ≢ 0
  y_ne_zero p lt r z =
      let t : test_bit m.y (p / 8) ≡ test_bit 0 (p / 8) = ap (λ n. test_bit n (p / 8)) z in
      ground (
        arith,
        t,
        test_bit-zero (p / 8) (omega arith),
        h.high (p / 8) (omega arith),
        ready-zero p lt,
      )

  -- The byte that the table finds is the first that is not zero.
  byte_found :
      m.y ≢ 0
      → (get_or bitmap m.y 0 < 8)
        × (m.c (get_or bitmap m.y 0) ≢ 0)
        × ((b : ℕ) → b < get_or bitmap m.y 0 → m.c b ≡ 0)
  byte_found ne =
      let (lt, bit, lower) = bitmap-lowest m.y h.y_byte ne in
      (
        lt,
        λ z. ground (arith, h.high (get_or bitmap m.y 0) lt),
        λ b k. ground (arith, h.high b (omega arith), lower b k),
      )

  -- If a priority below 64 is ready, the search finds a ready priority, and none below it is ready.
  pub bitmap_get-least :
      (p : ℕ)
      → p < 64
      → ready p ≡ true
      → (ready (bitmap_get m) ≡ true)
        × (bitmap_get m < 64)
        × ((q : ℕ) → q < bitmap_get m → ready q ≡ false)
  unfolding bitmap_get
  bitmap_get-least p lt r =
      let b = get_or bitmap m.y 0 in
      let a = get_or bitmap (m.c b) 0 in
      let (hb, ne, below) = byte_found (y_ne_zero p lt r) in
      let (ha, bit, lower) = bitmap-lowest (m.c b) (h.c_byte b hb) ne in
      let e : (b * 8 + a) % 256 ≡ b * 8 + a = omega arith in
      (
        rw e (ground (arith, h.low b a hb ha)),
        omega arith,
        λ q k. elim (dec_lt (q / 8) b) [
          | yes less ↦ ready-zero q (omega arith) (below (q / 8) less)
          | no ge ↦
              let here : b * 8 + q % 8 ≡ q = omega arith in
              ground (arith, here, lower (q % 8) (omega arith), h.low b (q % 8) hb (omega arith))
        ],
      )
