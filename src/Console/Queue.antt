-- ===== src/Console/Queue.antt =====
-- The input buffer is a queue of up to 511 characters.
use joslab4_init.Base.{
  ℕ, suc, ◌+◌, ◌%◌, ◌<◌, ◌≡◌, ◌≢◌, Bool, true, false, List, [], ◌∷◌, ◌++◌, arith, length,
  length-append, append-nil, append_one, Bool-cases, inl, inr, ◌==◌, if◌then◌else◌, update,
}
use joslab4_init.Console.{Input, consbufsize, cons_intr, serial_intr, grab, cons_getc}

-- From place `p` on, round the ring, stand the characters `xs`.
abbrev pub Holds : (ℕ → ℕ) → ℕ → List ℕ → Type 0
Holds buf p [] = Unit
Holds buf p (x ∷ xs) = (buf (p % 512) ≡ x) × Holds buf (suc p) xs

-- The characters that wait, the next one first.
pub record IsQueue (s : Input) (xs : List ℕ) : Type 0 where
  pub chars : Holds s.buf s.rpos xs
  pub room : length xs < 512
  pub start : s.rpos < 512
  pub end : s.wpos ≡ (s.rpos + length xs) % 512

-- The bytes that `cons_intr` keeps.
abbrev pub received : List ℕ → List ℕ
received [] = []
received (c ∷ cs) = if c == 0 then received cs else c % 256 ∷ received cs

Holds-put :
    (buf : ℕ → ℕ) (p c : ℕ) (xs : List ℕ)
    → length xs < 512
    → Holds buf p xs
    → Holds (update buf ((p + length xs) % 512) c) p (xs ++ c ∷ [])
Holds-put buf p c [] h t = (ground arith, tt)
Holds-put buf p c (x ∷ xs) h (e, hs) =
    let same : (suc p + length xs) % 512 ≡ (p + suc (length xs)) % 512 = omega arith in
    (ground arith, rw same at (Holds-put buf (suc p) c xs (omega arith) hs))

-- The buffer after `cons_intr` has stored one character.
abbrev put : Input → ℕ → Input
put s c = record s {
  buf = update s.buf s.wpos c;
  wpos = if s.wpos + 1 == consbufsize then 0 else s.wpos + 1;
}

cons_put-IsQueue :
    (s : Input) (c : ℕ) (xs : List ℕ)
    → IsQueue s xs
    → length xs + 1 < 512
    → IsQueue (put s c) (xs ++ c ∷ [])
cons_put-IsQueue s c xs q h =
    let n = length-append xs (c ∷ []) in
    record {
      chars = rw (q.end) (Holds-put s.buf s.rpos c xs (q.room) (q.chars));
      room = omega (arith, n);
      start = q.start;
      end = ground (arith, n, q.end, q.start);
    }

cons_intr-IsQueue :
    (cs : List ℕ) (s : Input) (xs : List ℕ)
    → IsQueue s xs
    → length xs + length (received cs) < 512
    → IsQueue (cons_intr cs s) (xs ++ received cs)
unfolding cons_intr
cons_intr-IsQueue [] s xs q h = rw (append-nil xs) q
cons_intr-IsQueue (c ∷ cs) s xs q h = elim (Bool-cases (c == 0)) [
  | inl none ↦ rw none (cons_intr-IsQueue cs s xs q (rw none at h))
  | inr char ↦
      let ys = xs ++ c % 256 ∷ [] in
      let n = length-append xs (c % 256 ∷ []) in
      let fits : length xs + suc (length (received cs)) < 512 = rw char at h in
      rw char (
        rw (append_one xs (c % 256) (received cs)) at (
          cons_intr-IsQueue cs (put s (c % 256)) ys
            (cons_put-IsQueue s (c % 256) xs q (omega (arith, fits))) (omega (arith, n, fits))))
]

Holds-round :
    (buf : ℕ → ℕ) (p r : ℕ) (xs : List ℕ) → p % 512 ≡ r % 512 → Holds buf p xs → Holds buf r xs
Holds-round buf p r [] e h = tt
Holds-round buf p r (x ∷ xs) e (c, h) =
    (rw (← e) c, Holds-round buf (suc p) (suc r) xs (omega arith) h)

grab-IsQueue :
    (s : Input) (x : ℕ) (xs : List ℕ)
    → IsQueue s (x ∷ xs)
    → (s' : Input) × (grab s ≡ (x, s')) × IsQueue s' xs
unfolding grab
grab-IsQueue s x xs q =
    let (e, hs) = q.chars in
    let next = if s.rpos + 1 == consbufsize then 0 else s.rpos + 1 in
    (
      record s { rpos = next },
      ground (arith, e, q.end, q.start, q.room),
      record {
        chars = Holds-round s.buf (suc s.rpos) next xs (ground (arith, q.start)) hs;
        room = omega (arith, q.room);
        start = ground (arith, q.start);
        end = ground (arith, q.start, q.end);
      },
    )

-- The next character, or 0, and those behind it.
abbrev pub first : List ℕ → ℕ
first [] = 0
first (x ∷ xs) = x

abbrev pub rest : List ℕ → List ℕ
rest [] = []
rest (x ∷ xs) = xs

grab-first :
    (s : Input) (xs : List ℕ)
    → IsQueue s xs
    → (s' : Input) × (grab s ≡ (first xs, s')) × IsQueue s' (rest xs)
unfolding grab
grab-first s [] q = (s, ground (arith, q.end, q.start), q)
grab-first s (x ∷ xs) q = grab-IsQueue s x xs q

polled-IsQueue :
    (serial_exists : Bool) (serial kbd xs : List ℕ) (s : Input)
    → IsQueue s xs
    → length xs + length (received (if serial_exists then serial else [])) + length (received kbd)
      < 512
    → IsQueue
        (cons_intr kbd (serial_intr serial_exists serial s))
        ((xs ++ received (if serial_exists then serial else [])) ++ received kbd)
unfolding serial_intr
polled-IsQueue false serial kbd xs s q h =
    rw (append-nil xs) (cons_intr-IsQueue kbd s xs q (omega (arith, h)))
polled-IsQueue true serial kbd xs s q h =
    let n = length-append xs (received serial) in
    cons_intr-IsQueue kbd (cons_intr serial s) (xs ++ received serial)
      (cons_intr-IsQueue serial s xs q (omega (arith, h))) (omega (arith, n, h))

-- What waits in the buffer are the characters that came in and were not read, in their order, as long
-- as they are fewer than 512: `cons_getc` first adds what the serial port, if there is one, and then
-- the keyboard deliver, less zeroes, and takes the first character, or returns 0 if there is none.
pub cons_getc-IsQueue :
    (serial_exists : Bool) (serial kbd xs : List ℕ) (s : Input)
    → IsQueue s xs
    → length xs + length (received (if serial_exists then serial else [])) + length (received kbd)
      < 512
    → let all = (xs ++ received (if serial_exists then serial else [])) ++ received kbd in
      (s' : Input) × (cons_getc serial_exists serial kbd s ≡ (first all, s'))
      × IsQueue s' (rest all)
unfolding cons_getc
cons_getc-IsQueue serial_exists serial kbd xs s q h =
    grab-first _ _ (polled-IsQueue serial_exists serial kbd xs s q h)

-- When 511 characters wait and one more comes in, all 512 are lost: the buffer is empty afterwards.
pub overrun-empty :
    (s : Input) (c : ℕ) (xs : List ℕ)
    → IsQueue s xs
    → length xs ≡ 511
    → c ≢ 0
    → grab (cons_intr (c ∷ []) s) ≡ (0, cons_intr (c ∷ []) s)
unfolding cons_intr grab
overrun-empty s c xs q full used = ground (arith, q.start, q.end)
