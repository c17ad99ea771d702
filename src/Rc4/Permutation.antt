-- ===== src/Rc4/Permutation.antt =====
-- The state of src/rc4.c is a permutation of the bytes from the key schedule on, and every index
-- that the code reads or writes is inside of it.
use solidircd.Base.{
  ℕ, zero, suc, ◌+◌, ◌%◌, ◌<◌, ◌≤◌, ◌≡◌, refl, sym, subst, ◌∙◌, [], ◌∷◌, ◌==◌, ltb, leb, ◌&&◌,
  if◌then◌else◌, get_or, get_or-set, set, replicate, length, length-set, length-replicate, arith,
}
use solidircd.Match.Compare.{Bytes}
use solidircd.Rc4.{
  Rc4State, swap, fill, schedule, rc4_initstate, advance, rc4_process_stream_to_buf,
}

-- 256 bytes, no two of them equal.
pub record IsPermutation (s : Bytes) : Type 0 where
  pub size : length s ≡ 256
  pub bounded : (i : ℕ) → i < 256 → get_or s i 0 < 256
  pub distinct : (i j : ℕ) → i < 256 → j < 256 → get_or s i 0 ≡ get_or s j 0 → i ≡ j

pub record IsValid (rc4 : Rc4State) : Type 0 where
  pub permutation : IsPermutation rc4.mstate
  pub x_bounded : rc4.x < 256
  pub y_bounded : rc4.y < 256

swap-reads :
    (s : Bytes) (i j k : ℕ)
    → i < length s
    → j < length s
    → get_or (swap s i j) k 0
      ≡ (if j == k then get_or s i 0 else if i == k then get_or s j 0 else get_or s k 0)
unfolding swap
swap-reads s i j k hi hj = ground (
  arith,
  get_or-set (set s i (get_or s j 0)) j k (get_or s i 0) 0,
  get_or-set s i k (get_or s j 0) 0,
  length-set s i (get_or s j 0),
)

-- The place that a place of a state after an exchange took its byte from.
abbrev origin : ℕ → ℕ → ℕ → ℕ
origin i j k = if j == k then i else if i == k then j else k

swap-origin :
    (s : Bytes) (i j k : ℕ)
    → i < length s
    → j < length s
    → get_or (swap s i j) k 0 ≡ get_or s (origin i j k) 0
swap-origin s i j k hi hj = ground (arith, swap-reads s i j k hi hj)

length-swap : (s : Bytes) (i j : ℕ) → length (swap s i j) ≡ length s
unfolding swap
length-swap s i j =
    length-set (set s i (get_or s j 0)) j (get_or s i 0) ∙ length-set s i (get_or s j 0)

swap-IsPermutation :
    (s : Bytes) (i j : ℕ) → IsPermutation s → i < 256 → j < 256 → IsPermutation (swap s i j)
swap-IsPermutation s i j p hi hj =
    let hi' : i < length s = ground (arith, p.size) in
    let hj' : j < length s = ground (arith, p.size) in
    record {
      size = length-swap s i j ∙ p.size;
      bounded = λ k h. ground (arith, swap-origin s i j k hi' hj', p.bounded (origin i j k));
      distinct = λ k l hk hl e. ground (
        arith,
        swap-origin s i j k hi' hj',
        swap-origin s i j l hi' hj',
        p.distinct (origin i j k) (origin i j l),
      );
    }

fill-reads :
    (left i k : ℕ) (s : Bytes)
    → i + left ≤ length s
    → i + left ≤ 256
    → get_or (fill left i s) k 0 ≡ (if leb i k && ltb k (i + left) then k else get_or s k 0)
unfolding fill
fill-reads zero i k s h b = ground arith
fill-reads (suc left) i k s h b = ground (
  arith,
  fill-reads left (i + 1) k (set s i (i % 256)),
  length-set s i (i % 256),
  get_or-set s i k (i % 256) 0,
)

length-fill : (left i : ℕ) (s : Bytes) → length (fill left i s) ≡ length s
unfolding fill
length-fill zero i s = refl
length-fill (suc left) i s = length-fill left (i + 1) (set s i (i % 256)) ∙ length-set s i (i % 256)

filled : (n k : ℕ) → n ≤ 256 → k < n → get_or (fill n 0 (replicate n 0)) k 0 ≡ k
filled n k h hk = ground (arith, fill-reads n 0 k (replicate n 0), length-replicate {A = ℕ} n 0)

fill-IsPermutation : IsPermutation (fill 256 0 (replicate 256 0))
fill-IsPermutation = record {
  size = length-fill 256 0 (replicate 256 0) ∙ length-replicate {A = ℕ} 256 0;
  bounded = λ k h. subst (λ v. v < 256) (sym (filled 256 k (omega arith) h)) h;
  distinct = λ k l hk hl e. sym (filled 256 k (omega arith) hk) ∙ e ∙ filled 256 l (omega arith) hl;
}

schedule-IsPermutation :
    (key : Bytes) (left i idx1 idx2 : ℕ) (s : Bytes)
    → IsPermutation s
    → i + left ≤ 256
    → IsPermutation (schedule key left i idx1 idx2 s)
unfolding schedule
schedule-IsPermutation key zero i idx1 idx2 s p h = p
schedule-IsPermutation key (suc left) i idx1 idx2 s p h =
    let other = (get_or key idx1 0 + get_or s i 0 + idx2) % 256 in
    let next = (idx1 + 1) % 256 in
    schedule-IsPermutation key left (i + 1) (if leb (length key) next then 0 else next) other
      (swap s i other) (swap-IsPermutation s i other p (omega arith) (omega arith)) (omega arith)

rc4_initstate-IsValid : (key : Bytes) → IsValid (rc4_initstate key)
unfolding rc4_initstate
rc4_initstate-IsValid key = record {
  permutation =
      schedule-IsPermutation key 256 0 0 0 (fill 256 0 (replicate 256 0)) fill-IsPermutation
        (omega arith);
  x_bounded = omega arith;
  y_bounded = omega arith;
}

advance-IsValid : (rc4 : Rc4State) → IsValid rc4 → IsValid (advance rc4)
unfolding advance
advance-IsValid rc4 v =
    let x = (rc4.x + 1) % 256 in
    let y = (rc4.y + get_or rc4.mstate x 0) % 256 in
    record {
      permutation = swap-IsPermutation rc4.mstate x y v.permutation (omega arith) (omega arith);
      x_bounded = omega arith;
      y_bounded = omega arith;
    }

stream-IsValid :
    (rc4 : Rc4State) (s : Bytes) → IsValid rc4 → IsValid (rc4_process_stream_to_buf rc4 s).0
unfolding rc4_process_stream_to_buf
stream-IsValid rc4 [] v = v
stream-IsValid rc4 (c ∷ s) v = stream-IsValid (advance rc4) s (advance-IsValid rc4 v)

-- From every key on and after any string, the state has 256 bytes, all below 256 and no two equal,
-- and both counters are below 256.
pub context-IsValid : (key s : Bytes) → IsValid (rc4_process_stream_to_buf (rc4_initstate key) s).0
context-IsValid key s = stream-IsValid (rc4_initstate key) s (rc4_initstate-IsValid key)
