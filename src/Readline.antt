-- ===== src/Readline.antt =====
-- `readline` of lib/readline.c, on the characters that `getchar` returns one after the other, and
-- the line it reads.
use joslab4_init.Base.{
  ℕ, ◌+◌, ◌-◌, ◌%◌, ◌≤◌, ◌<◌, ◌≡◌, ap, refl, sym, Bool, true, false, ◌&&◌, ◌||◌, Option, none, some,
  List, [], ◌∷◌, ◌++◌, arith, length, leb, ltb, ◌==◌, update, if◌then◌else◌, Bool-cases, inl, inr,
}
use joslab4_init.Base.Int.{ℤ, pos, negsuc}
use mathlib.Core.List.{map}
use mathlib.Core.Option.{some-injective}

abbrev pub buflen : ℕ
buflen = 1024

pub record Line : Type 0 where
  pub i : ℕ
  pub buf : ℕ → ℕ
  pub echoed : List ℕ

-- `waiting` is a call of `getchar` behind the characters given.
pub data Read : Type 0 where
  line : Line → Read
  read_error : (c : ℤ) → Line → Read
  waiting : Line → Read

abbrev pub echo : (echoing : Bool) → (c : ℕ) → Line → Line
echo echoing c s = if echoing then record s { echoed = s.echoed ++ c ∷ [] } else s

abbrev pub is_erase : ℕ → Bool
is_erase c = (c == 8) || (c == 127)

abbrev pub is_newline : ℕ → Bool
is_newline c = (c == 10) || (c == 13)

unfoldable pub erase : (echoing : Bool) → Line → Line
erase echoing s = let s1 = echo echoing 8 s in record s1 { i = s1.i - 1 }

unfoldable pub store_char : (echoing : Bool) → (c : ℕ) → Line → Line
store_char echoing c s =
    let s1 = echo echoing c s in record s1 { buf = update s1.buf s1.i (c % 256); i = s1.i + 1 }

unfoldable pub end_line : (echoing : Bool) → Line → Line
end_line echoing s = let s1 = echo echoing 10 s in record s1 { buf = update s1.buf s1.i 0 }

unfoldable pub read_loop : (echoing : Bool) → List ℤ → Line → Read
read_loop echoing [] s = waiting s
read_loop echoing (negsuc n ∷ cs) s = read_error (negsuc n) s
read_loop echoing (pos c ∷ cs) s =
    if is_erase c && ltb 0 s.i
    then read_loop echoing cs (erase echoing s)
    else if leb 32 c && ltb s.i (buflen - 1)
    then read_loop echoing cs (store_char echoing c s)
    else if is_newline c
    then line (end_line echoing s)
    else read_loop echoing cs s

unfoldable pub readline : (echoing : Bool) → List ℤ → (buf : ℕ → ℕ) → Read
readline echoing cs buf = read_loop echoing cs (record { i = 0; buf = buf; echoed = [] })

abbrev tail : List ℕ → List ℕ
tail [] = []
tail (c ∷ st) = st

-- One key on a line whose characters are listed from the last one.
unfoldable pub edit : (c : ℕ) → List ℕ → List ℕ
edit c st =
    if is_erase c && ltb 0 (length st)
    then tail st
    else if leb 32 c && ltb (length st) 1023
    then c ∷ st
    else st

-- The line when the first newline is typed.
unfoldable pub edited : List ℕ → List ℕ → Option (List ℕ)
edited [] st = none
edited (c ∷ cs) st = if is_newline c then some st else edited cs (edit c st)

-- The buffer's first bytes are the line.
abbrev pub HoldsLine : (ℕ → ℕ) → List ℕ → Type 0
HoldsLine buf [] = Unit
HoldsLine buf (c ∷ st) = (buf (length st) ≡ c % 256) × HoldsLine buf st

record Agrees (buf : ℕ → ℕ) (st : List ℕ) (s : Line) : Type 0 where
  place : s.i ≡ length st
  room : length st ≤ 1023
  holds : HoldsLine s.buf st
  outside : (a : ℕ) → 1024 ≤ a → s.buf a ≡ buf a

HoldsLine-update :
    (buf : ℕ → ℕ) (st : List ℕ) (a v : ℕ)
    → length st ≤ a
    → HoldsLine buf st
    → HoldsLine (update buf a v) st
HoldsLine-update buf [] a v h l = tt
HoldsLine-update buf (c ∷ st) a v h (e, l) =
    (ground arith, HoldsLine-update buf st a v (omega arith) l)

echo_same :
    (echoing : Bool) (c : ℕ) (buf : ℕ → ℕ) (st : List ℕ) (s : Line)
    → Agrees buf st s
    → Agrees buf st (echo echoing c s)
echo_same true c buf st s a = record {
  place = a.place;
  room = a.room;
  holds = a.holds;
  outside = a.outside;
}
echo_same false c buf st s a = a

erase-Agrees :
    (echoing : Bool) (buf : ℕ → ℕ) (c : ℕ) (st : List ℕ) (s : Line)
    → Agrees buf (c ∷ st) s
    → Agrees buf st (erase echoing s)
unfolding erase
erase-Agrees echoing buf c st s a =
    let a1 = echo_same echoing 8 buf (c ∷ st) s a in
    record {
      place = omega (arith, a1.place);
      room = omega (arith, a1.room);
      holds = a1.holds.1;
      outside = a1.outside;
    }

store_char-Agrees :
    (echoing : Bool) (buf : ℕ → ℕ) (c : ℕ) (st : List ℕ) (s : Line)
    → length st < 1023
    → Agrees buf st s
    → Agrees buf (c ∷ st) (store_char echoing c s)
unfolding store_char
store_char-Agrees echoing buf c st s h a =
    let a1 = echo_same echoing c buf st s a in
    record {
      place = omega (arith, a1.place);
      room = omega arith;
      holds = (
        ground (arith, a1.place),
        HoldsLine-update (echo echoing c s).buf st _ _ (omega (arith, a1.place)) a1.holds,
      );
      outside = λ b g. ground (arith, a1.place, a1.outside b g);
    }

Finished : (buf : ℕ → ℕ) → List ℕ → Read → Type 0
Finished buf st r = (s : Line) × (r ≡ line s) × Agrees buf st s × (s.buf (length st) ≡ 0)

end_line-Finished :
    (echoing : Bool) (buf : ℕ → ℕ) (st : List ℕ) (s : Line)
    → Agrees buf st s
    → Finished buf st (line (end_line echoing s))
unfolding Finished end_line
end_line-Finished echoing buf st s a =
    let a1 = echo_same echoing 10 buf st s a in
    (
      end_line echoing s,
      refl,
      record {
        place = a1.place;
        room = a1.room;
        holds = HoldsLine-update (echo echoing 10 s).buf st _ 0 (omega (arith, a1.place)) a1.holds;
        outside = λ b g. ground (arith, a1.place, a1.room, a1.outside b g);
      },
      ground (arith, a1.place),
    )

tail-Agrees :
    (echoing : Bool) (buf : ℕ → ℕ) (st : List ℕ) (s : Line)
    → ltb 0 (length st) ≡ true
    → Agrees buf st s
    → Agrees buf (tail st) (erase echoing s)
tail-Agrees echoing buf [] s h a = ground arith
tail-Agrees echoing buf (c ∷ st) s h a = erase-Agrees echoing buf c st s a

and_right : (a b : Bool) → (a && b) ≡ true → b ≡ true
and_right true b h = h
and_right false b h = absurd (ground arith)

-- One character that ends no line.
edit-Agrees :
    (echoing : Bool) (buf : ℕ → ℕ) (c : ℕ) (cs : List ℤ) (st : List ℕ) (s : Line)
    → Agrees buf st s
    → is_newline c ≡ false
    → (s' : Line) × (read_loop echoing (pos c ∷ cs) s ≡ read_loop echoing cs s')
      × Agrees buf (edit c st) s'
unfolding read_loop edit
edit-Agrees echoing buf c cs st s a n =
    let t1 = ap (λ (k : ℕ). ltb 0 k) a.place in
    let t2 = ap (λ (k : ℕ). ltb k 1023) a.place in
    rw (t1, t2, n)
      (elim (Bool-cases (is_erase c && ltb 0 (length st))) [
        | inl y ↦ rw y (
          erase echoing s,
          refl,
          tail-Agrees echoing buf st s (and_right (is_erase c) (ltb 0 (length st)) y) a,
        )
        | inr x ↦ elim (Bool-cases (leb 32 c && ltb (length st) 1023)) [
          | inl y ↦
              rw (x, y)
                (
                  store_char echoing c s,
                  refl,
                  store_char-Agrees echoing buf c st s
                      (ground (arith, and_right (leb 32 c) (ltb (length st) 1023) y)) a,
                )
          | inr z ↦ rw (x, z) (s, refl, a)
        ]
      ])

newline_line :
    (echoing : Bool) (c : ℕ) (cs : List ℤ) (s : Line)
    → is_newline c ≡ true
    → read_loop echoing (pos c ∷ cs) s ≡ line (end_line echoing s)
unfolding read_loop
newline_line echoing c cs s h =
    let t1 : is_erase c ≡ false = ground arith in
    let t2 : leb 32 c ≡ false = ground arith in rw (t1, t2, h) refl

read_loop-edited :
    (echoing : Bool) (cs : List ℕ) (buf : ℕ → ℕ) (st0 st : List ℕ) (s : Line)
    → Agrees buf st0 s
    → edited cs st0 ≡ some st
    → Finished buf st (read_loop echoing (map pos cs) s)
unfolding edited
read_loop-edited echoing [] buf st0 st s a e = absurd (cc e)
read_loop-edited echoing (c ∷ cs) buf st0 st s a e = elim (Bool-cases (is_newline c)) [
  | inl y ↦
      let e1 : some st0 ≡ some st = rw y at e in
      rw (newline_line echoing c (map pos cs) s y, sym (some-injective st0 st e1))
        (end_line-Finished echoing buf st0 s a)
  | inr n ↦
      let (s1, ran, a1) = edit-Agrees echoing buf c (map pos cs) st0 s a n in
      rw ran (read_loop-edited echoing cs buf (edit c st0) st s1 a1 (rw n at e))
]

-- `readline` on characters of which the first newline ends the line `st`: it returns with the line in
-- the first bytes of its buffer, followed by a NUL; the line has at most 1023 characters, and nothing
-- is written behind the buffer's 1024 bytes.
pub readline-edited :
    (echoing : Bool) (cs : List ℕ) (buf : ℕ → ℕ) (st : List ℕ)
    → edited cs [] ≡ some st
    → (s : Line) × (readline echoing (map pos cs) buf ≡ line s)
      × HoldsLine s.buf st
      × (s.i ≡ length st)
      × (s.buf (length st) ≡ 0)
      × (length st ≤ 1023)
      × ((a : ℕ) → 1024 ≤ a → s.buf a ≡ buf a)
unfolding readline Finished
readline-edited echoing cs buf st e =
    let (s, ran, a, end) =
      read_loop-edited echoing cs buf [] st (record { i = 0; buf = buf; echoed = [] })
        (record { place = refl; room = omega arith; holds = tt; outside = λ a h. refl }) e in
    (s, ran, a.holds, a.place, end, a.room, a.outside)
