-- ===== src/Bytes/Write.antt =====
-- The writer of bytes.ts never loses a byte: each method makes room first, and appends.
use ramose.Base.{
  ℕ, zero, suc, ◌+◌, ◌*◌, ◌/◌, ◌%◌, ◌≤◌, ◌<◌, ◌≡◌, ◌∙◌, refl, sym, ap, true, false, List, [], ◌∷◌,
  ◌++◌, append_assoc, append-nil, arith, ltb, leb, ◌==◌, length, length-append, if◌then◌else◌,
  Bool-cases, inl, inr, lt→ltb,
}
use ramose.Base.Int.{ℤ, pos, negsuc}
use ramose.Bytes.{
  ok, Writer, Put, grow, ensure, store, store_all, u8, u32, be32, uvar, uvar_loop, svar, bytes,
  lbytes, max_safe, sign_bit, magnitude, is_safe, ◌then_put◌,
}

-- What is written fits the buffer, which is not empty.
pub record IsWriter (w : Writer) : Type 0 where
  pub fits : length w.written ≤ w.capacity
  pub some_room : 0 < w.capacity

-- From every valid writer the method succeeds, appends `bs` and leaves a valid writer.
pub record Writes (m : Put) (bs : List ℕ) : Type 0 where
  pub run :
      (w : Writer)
      → IsWriter w
      → (w' : Writer) × (m w ≡ ok w') × (w'.written ≡ w.written ++ bs) × IsWriter w'

grow_lem :
    (fuel cap need : ℕ)
    → 0 < cap
    → need ≤ cap + fuel
    → (need ≤ grow fuel cap need) × (cap ≤ grow fuel cap need)
unfolding grow
grow_lem zero cap need h k = omega arith
grow_lem (suc fuel) cap need h k = ground (arith, grow_lem fuel (cap * 2) need)

pub ensure_lem :
    (n : ℕ) (w : Writer)
    → IsWriter w
    → ((ensure n w).written ≡ w.written)
      × (length w.written + n ≤ (ensure n w).capacity)
      × (0 < (ensure n w).capacity)
unfolding ensure
ensure_lem n w v =
    let need = length w.written + n in
    let g = grow_lem need (w.capacity * 2) need (omega arith) (omega arith) in
    elim (Bool-cases (leb need w.capacity)) [
      | inl e ↦ rw e (refl, ground arith, v.some_room)
      | inr e ↦ rw e (refl, g.0, omega (arith, g.1, v.some_room))
    ]

-- A store with room appends the byte.
store_lem :
    (x : ℕ) (w : Writer)
    → length w.written < w.capacity
    → store x w ≡ ok (record w { written = w.written ++ x ∷ [] })
unfolding store
store_lem x w h = rw (lt→ltb _ _ h)

pub store_all_lem :
    (xs : List ℕ) (w : Writer)
    → length w.written + length xs ≤ w.capacity
    → store_all xs w ≡ ok (record w { written = w.written ++ xs })
unfolding store_all
store_all_lem [] w h = rw (append-nil w.written)
store_all_lem (x ∷ xs) w h = rw (store_lem x w (omega arith)) (
    store_all_lem xs (record w { written = w.written ++ x ∷ [] })
      (omega (arith, length-append w.written (x ∷ [])))
    ∙ rw (append_assoc w.written (x ∷ []) xs))

-- The bytes of a varint.
unfoldable pub uvar_bytes : ℕ → ℕ → List ℕ
uvar_bytes zero x = x ∷ []
uvar_bytes (suc fuel) x =
    let rest = uvar_bytes fuel (x / 0x80) in if leb 0x80 x then (x % 0x80 + 0x80) ∷ rest else x ∷ []

-- The numbers of at most `k + 1` groups of seven bits.
abbrev pub groups : ℕ → ℕ
groups zero = 0x80
groups (suc k) = 0x80 * groups k

pub uvar_loop_lem :
    (fuel k x : ℕ) (w : Writer)
    → k ≤ fuel
    → x < groups k
    → length w.written + suc k ≤ w.capacity
    → (uvar_loop fuel x w ≡ ok (record w { written = w.written ++ uvar_bytes fuel x }))
      × (length (uvar_bytes fuel x) ≤ suc k)
unfolding uvar_loop uvar_bytes
uvar_loop_lem zero k x w f h r = (store_lem x w (omega arith), omega arith)
uvar_loop_lem (suc fuel) zero x w f h r =
    let e : leb 0x80 x ≡ false = ground arith in rw e (store_lem x w (omega arith), omega arith)
uvar_loop_lem (suc fuel) (suc k) x w f h r = elim (Bool-cases (leb 0x80 x)) [
  | inr e ↦ rw e (store_lem x w (omega arith), omega arith)
  | inl e ↦
      let b = x % 0x80 + 0x80 in
      let w1 = record w { written = w.written ++ b ∷ [] } in
      let ih =
        uvar_loop_lem fuel k (x / 0x80) w1 (omega arith) (omega arith)
          (omega (arith, length-append w.written (b ∷ []))) in
      rw (e, store_lem b w (omega arith))
        (
          ih.0 ∙ rw (append_assoc w.written (b ∷ []) (uvar_bytes fuel (x / 0x80))),
          omega (arith, ih.1),
        )
]

-- Appending within the room that `ensure` makes is a valid write.
append_writes :
    (n : ℕ) (xs : List ℕ) (w : Writer)
    → IsWriter w
    → length xs ≤ n
    → (w' : Writer) × (ok (record (ensure n w) { written = (ensure n w).written ++ xs }) ≡ ok w')
      × (w'.written ≡ w.written ++ xs)
      × IsWriter w'
append_writes n xs w v h =
    let e = ensure_lem n w v in
    (
      record (ensure n w) { written = (ensure n w).written ++ xs },
      refl,
      rw e.0 refl,
      record { fits = rw e.0 (omega (arith, length-append w.written xs, e.1)); some_room = e.2 },
    )

pub uvar-Writes : (x : ℕ) → x ≤ max_safe → Writes (uvar x) (uvar_bytes 10 x)
unfolding uvar
uvar-Writes x h = record {
  run = λ w v.
      let e : ltb max_safe x ≡ false = ground arith in
      let q = ensure_lem 10 w v in
      let l =
        uvar_loop_lem 10 7 x (ensure 10 w) (omega arith) (omega arith)
          (rw q.0 (omega (arith, q.1))) in
      rw (e, l.0) (append_writes 10 (uvar_bytes 10 x) w v (omega (arith, l.1)));
}

pub u8-Writes : (x : ℕ) → Writes (u8 x) ((x % 256) ∷ [])
unfolding u8
u8-Writes x = record {
  run = λ w v.
      let q = ensure_lem 1 w v in
      rw (store_lem (x % 256) (ensure 1 w) (rw q.0 (omega (arith, q.1))))
        (append_writes 1 ((x % 256) ∷ []) w v (omega arith));
}

pub u32-Writes : (x : ℕ) → Writes (u32 x) (be32 x)
unfolding u32
u32-Writes x = record {
  run = λ w v.
      let q = ensure_lem 4 w v in
      rw (store_all_lem (be32 x) (ensure 4 w) (rw q.0 q.1))
        (append_writes 4 (be32 x) w v (omega arith));
}

-- A block of known length, stored after making room for it.
pub block-Writes :
    (n : ℕ) (xs : List ℕ) → length xs ≡ n → Writes (λ w. store_all xs (ensure n w)) xs
block-Writes n xs h = record {
  run = λ w v.
      let q = ensure_lem n w v in
      rw (store_all_lem xs (ensure n w) (rw q.0 (omega (arith, q.1, h))))
        (append_writes n xs w v (omega (arith, h)));
}

pub bytes-Writes : (xs : List ℕ) → Writes (bytes xs) xs
unfolding bytes
bytes-Writes xs = record {
  run = λ w v.
      let q = ensure_lem (length xs) w v in
      rw (store_all_lem xs (ensure (length xs) w) (rw q.0 q.1))
        (append_writes (length xs) xs w v (omega arith));
}

-- Two methods in a row.
pub then-Writes :
    (m k : Put) (xs ys : List ℕ) → Writes m xs → Writes k ys → Writes (m then_put k) (xs ++ ys)
then-Writes m k xs ys f g = record {
  run = λ w v.
      let (w1, e1, h1, v1) = f.run w v in
      let (w2, e2, h2, v2) = g.run w1 v1 in
      (w2, rw e1 e2, h2 ∙ (ap (λ l. l ++ ys) h1 ∙ append_assoc w.written xs ys), v2);
}

pub nothing-Writes : Writes (λ w. ok w) []
nothing-Writes = record { run = λ w v. (w, refl, sym (append-nil w.written), v) }

pub lbytes-Writes :
    (xs : List ℕ) → length xs ≤ max_safe → Writes (lbytes xs) (uvar_bytes 10 (length xs) ++ xs)
unfolding lbytes
lbytes-Writes xs h =
    then-Writes (uvar (length xs)) (bytes xs) _ xs (uvar-Writes (length xs) h) (bytes-Writes xs)

-- A signed integer of at most 53 bits.
pub record IsSafe (x : ℤ) : Type 0 where
  pub safe : is_safe x ≡ true

unfoldable pub svar_bytes : ℤ → List ℕ
svar_bytes x =
    let low = magnitude x % 64 * 2 + sign_bit x in
    let rest = uvar_bytes 10 (magnitude x / 64) in
    if magnitude x / 64 == 0 then low ∷ [] else (low + 0x80) ∷ rest

byte-Writes : (b : ℕ) → Writes (λ w. store b (ensure 1 w)) (b ∷ [])
byte-Writes b = record {
  run = λ w v.
      let q = ensure_lem 1 w v in
      rw (store_lem b (ensure 1 w) (rw q.0 (omega (arith, q.1))))
        (append_writes 1 (b ∷ []) w v (omega arith));
}

pub magnitude-le : (x : ℤ) → IsSafe x → magnitude x ≤ max_safe
unfolding magnitude is_safe
magnitude-le (pos n) s = ground (arith, s.safe)
magnitude-le (negsuc n) s = ground (arith, s.safe)

pub svar-Writes : (x : ℤ) → IsSafe x → Writes (svar x) (svar_bytes x)
unfolding svar svar_bytes
svar-Writes x s = record {
  run = λ w v.
      let low = magnitude x % 64 * 2 + sign_bit x in
      let rest = magnitude x / 64 in
      let long =
        then-Writes (λ w. store (low + 0x80) (ensure 1 w)) (uvar rest) ((low + 0x80) ∷ [])
          (uvar_bytes 10 rest) (byte-Writes (low + 0x80))
          (uvar-Writes rest (omega (arith, magnitude-le x s))) in
      elim (Bool-cases (rest == 0)) [
        | inl e ↦ rw (s.safe, e) ((byte-Writes low).run w v)
        | inr e ↦ rw (s.safe, e) (long.run w v)
      ];
}
