-- ===== src/Monitor/Arguments.antt =====
-- `parse_args` finds the words of a line.
use native.Mathlib.Decide.{dec_lt}
use joslab4_init.Base.{
  ℕ, zero, suc, ◌+◌, ◌≤◌, ◌<◌, ◌≡◌, ◌≢◌, ◌⊎◌, ◌∙◌, ap, refl, sym, inl, inr, Bool, true, false, some,
  List, [], ◌∷◌, ◌++◌, arith, length, length-append, append-nil, append_one, update, if◌then◌else◌,
  Bool-cases, ne→!=, ne→==, eq→==,
}
use joslab4_init.Memory.{Memory, IsString}
use joslab4_init.String.Copy.{IsString-same}
use joslab4_init.Monitor.{
  is_white, skip_white, scan_word, Parsed, args, too_many, after_white, parse_args,
}

-- The addresses at which the words of `xs` start, for a text at `p`; `inside` is whether a word
-- reaches up to it.
unfoldable pub starts : (inside : Bool) (p : ℕ) → List ℕ → List ℕ
starts inside p [] = []
starts inside p (x ∷ xs) =
    let in_white = starts false (suc p) xs in
    let in_word = starts true (suc p) xs in
    if is_white x then in_white else if inside then in_word else p ∷ in_word

-- From `p` up to `q`, white space is replaced by NUL; nothing else changes.
abbrev pub Blanked : (m m' : Memory) (p q : ℕ) → Type 0
Blanked m m' p q =
    (a : ℕ)
    → ((p ≤ a) → (a < q) → m' a ≡ (if is_white (m a) then 0 else m a))
      × ((a < p) ⊎ (q ≤ a) → m' a ≡ m a)

Blanked-join :
    (m m1 m2 : Memory) (p q r : ℕ)
    → p ≤ q
    → q ≤ r
    → Blanked m m1 p q
    → Blanked m1 m2 q r
    → Blanked m m2 p r
Blanked-join m m1 m2 p q r h1 h2 f g a = (
  λ l u. elim (dec_lt a q) [
    | yes less ↦ (g a).1 (inl less) ∙ (f a).0 l less
    | no more ↦
        (g a).0 (omega arith) u
        ∙ ap (λ (x : ℕ). if is_white x then 0 else x) ((f a).1 (inr (omega arith)))
  ],
  λ out. (g a).1 (omega arith) ∙ (f a).1 (omega arith),
)

one_blank : (m : Memory) (p : ℕ) → is_white (m p) ≡ true → Blanked m (update m p 0) p (suc p)
one_blank m p w a = (
  λ l u.
      let e : a ≡ p = omega arith in
      let zero_here : update m p 0 a ≡ 0 = ground arith in
      rw (zero_here, ap (λ (b : ℕ). is_white (m b)) e ∙ w) refl,
  λ out. ground arith,
)

no_blank :
    (m : Memory) (p q : ℕ) → ((a : ℕ) → p ≤ a → a < q → is_white (m a) ≡ false) → Blanked m m p q
no_blank m p q words a = (λ l u. rw (words a l u) refl, λ out. refl)

-- A loop that stops at `q`, in front of `rest`.
record Skipped (m m' : Memory) (p q : ℕ) (xs rest : List ℕ) : Type 0 where
  from : p ≤ q
  left : q + length rest ≡ p + length xs
  str : IsString m' q rest
  blank : Blanked m m' p q
  same : starts false p xs ≡ starts false q rest

AtWord : List ℕ → Type 0
AtWord [] = Unit
AtWord (x ∷ xs) = is_white x ≡ false

skip_white-Skipped :
    (fuel : ℕ) (m : Memory) (p : ℕ) (xs : List ℕ)
    → IsString m p xs
    → length xs < fuel
    → (m' : Memory) × (q : ℕ) × (rest : List ℕ) × (skip_white fuel m p ≡ some (m', q))
      × Skipped m m' p q xs rest
      × AtWord rest
unfolding skip_white starts AtWord
skip_white-Skipped zero m p xs str h = absurd (omega arith)
skip_white-Skipped (suc fuel) m p [] str h = (
  m,
  p,
  [],
  rw str refl,
  record {
    from = omega arith;
    left = omega arith;
    str = str;
    blank = λ a. (λ l u. absurd (omega arith), λ out. refl);
    same = refl;
  },
  tt,
)
skip_white-Skipped (suc fuel) m p (x ∷ xs) (c, nz, str) h = elim (Bool-cases (is_white x)) [
  | inr word ↦ (
    m,
    p,
    x ∷ xs,
    rw (c, ne→!= x 0 nz, word) refl,
    record {
      from = omega arith;
      left = omega arith;
      str = (c, nz, str);
      blank = λ a. (λ l u. absurd (omega arith), λ out. refl);
      same = refl;
    },
    word,
  )
  | inl white ↦
      let m1 = update m p 0 in
      let str1 : IsString m1 (suc p) xs =
        IsString-same m m1 (suc p) xs str (λ a h1 h2. ground arith) in
      let (m2, q, rest, ran, s, at) = skip_white-Skipped fuel m1 (suc p) xs str1 (omega arith) in
      let b1 = one_blank m p (ap is_white c ∙ white) in
      (
        m2,
        q,
        rest,
        rw (c, ne→!= x 0 nz, white) ran,
        record {
          from = omega (arith, s.from);
          left = omega (arith, s.left);
          str = s.str;
          blank = Blanked-join m m1 m2 p (suc p) q (omega arith) s.from b1 s.blank;
          same = rw white s.same;
        },
        at,
      )
]

-- A scan from within a word that stops at `q`, in front of `rest`.
record Scanned (m : Memory) (p q : ℕ) (xs rest : List ℕ) : Type 0 where
  from : p ≤ q
  left : q + length rest ≡ p + length xs
  str : IsString m q rest
  words : (a : ℕ) → p ≤ a → a < q → is_white (m a) ≡ false
  same : starts true p xs ≡ starts false q rest

scan_word-Scanned :
    (fuel : ℕ) (m : Memory) (p : ℕ) (xs : List ℕ)
    → IsString m p xs
    → length xs < fuel
    → (q : ℕ) × (rest : List ℕ) × (scan_word fuel m p ≡ some q) × Scanned m p q xs rest
unfolding scan_word starts
scan_word-Scanned zero m p xs str h = absurd (omega arith)
scan_word-Scanned (suc fuel) m p [] str h = (
  p,
  [],
  rw str refl,
  record {
    from = omega arith;
    left = omega arith;
    str = str;
    words = λ a l u. absurd (omega arith);
    same = refl;
  },
)
scan_word-Scanned (suc fuel) m p (x ∷ xs) (c, nz, str) h = elim (Bool-cases (is_white x)) [
  | inl white ↦ (
    p,
    x ∷ xs,
    rw (c, ne→!= x 0 nz, white) refl,
    record {
      from = omega arith;
      left = omega arith;
      str = (c, nz, str);
      words = λ a l u. absurd (omega arith);
      same = rw white refl;
    },
  )
  | inr word ↦
      let (q, rest, ran, s) = scan_word-Scanned fuel m (suc p) xs str (omega arith) in
      (
        q,
        rest,
        rw (c, ne→!= x 0 nz, word) ran,
        record {
          from = omega (arith, s.from);
          left = omega (arith, s.left);
          str = s.str;
          words = λ a l u. elim (dec_lt p a) [
            | yes later ↦ s.words a later u
            | no here ↦ ap (λ (b : ℕ). is_white (m b)) (omega arith) ∙ ap is_white c ∙ word
          ];
          same = rw word s.same;
        },
      )
]

-- What `parse_args` gives for a text at `p`, behind the arguments `argv`.
IsParse : Memory → (p : ℕ) → (xs argv : List ℕ) → Parsed → Type 0
IsParse m p xs argv r =
    ((m' : Memory) × (r ≡ args m' (argv ++ starts false p xs))
      × (length (argv ++ starts false p xs) ≤ 15)
      × Blanked m m' p (p + length xs))
    ⊎ ((r ≡ too_many) × (15 < length (argv ++ starts false p xs)))

parse_white :
    (fuel limit : ℕ) (m m1 : Memory) (p b1 : ℕ) (argv : List ℕ)
    → skip_white limit m p ≡ some (m1, b1)
    → parse_args (suc fuel) limit m p argv
      ≡ after_white (parse_args fuel limit) limit argv (some (m1, b1))
unfolding parse_args
parse_white fuel limit m m1 p b1 argv ran = ap (after_white (parse_args fuel limit) limit argv) ran

IsParse-end :
    (fuel limit : ℕ) (m m1 : Memory) (p b1 : ℕ) (xs argv : List ℕ)
    → skip_white limit m p ≡ some (m1, b1)
    → Skipped m m1 p b1 xs []
    → length argv ≤ 15
    → IsParse m p xs argv (parse_args (suc fuel) limit m p argv)
unfolding IsParse starts
IsParse-end fuel limit m m1 p b1 xs argv ran s h =
    let none_left : argv ++ starts false p xs ≡ argv =
      ap (λ (ys : List ℕ). argv ++ ys) s.same ∙ append-nil argv in
    let end : b1 ≡ p + length xs = omega (arith, s.left) in
    let stops = parse_white fuel limit m m1 p b1 argv ran in
    rw (stops, none_left, eq→== (m1 b1) 0 s.str, sym end) (inl (m1, refl, h, s.blank))

-- A parse from behind a word is one from in front of it.
IsParse-word :
    (m m1 : Memory) (p q b2 x : ℕ) (xs ys rest argv : List ℕ) (r : Parsed)
    → Skipped m m1 p q xs (x ∷ ys)
    → is_white x ≡ false
    → Scanned m1 (suc q) b2 ys rest
    → IsParse m1 b2 rest (argv ++ q ∷ []) r
    → IsParse m p xs argv r
unfolding IsParse starts
IsParse-word m m1 p q b2 x xs ys rest argv r s word sc o =
    let one : starts false p xs ≡ q ∷ starts false b2 rest =
      s.same ∙ rw word (ap (λ (zs : List ℕ). q ∷ zs) sc.same) in
    let all : (argv ++ q ∷ []) ++ starts false b2 rest ≡ argv ++ starts false p xs =
      append_one argv q (starts false b2 rest) ∙ ap (λ (zs : List ℕ). argv ++ zs) (sym one) in
    let end : b2 + length rest ≡ p + length xs = omega (arith, s.left, sc.left) in
    let words : (a : ℕ) → q ≤ a → a < b2 → is_white (m1 a) ≡ false = λ a l u. elim (dec_lt q a) [
      | yes later ↦ sc.words a later u
      | no here ↦ ap (λ (b : ℕ). is_white (m1 b)) (omega arith) ∙ ap is_white (s.str.0) ∙ word
    ] in
    elim o [
      | inl (m2, ran, len, blank) ↦ inl (
        m2,
        ran ∙ ap (args m2) all,
        omega (arith, ap length all),
        rw (sym end) (
            Blanked-join m m1 m2 p q _ s.from (omega (arith, sc.from)) s.blank (
              Blanked-join m1 m1 m2 q b2 _ (omega (arith, sc.from)) (omega arith)
                (no_blank m1 q b2 words) blank)),
      )
      | inr (ran, len) ↦ inr (ran, omega (arith, ap length all))
    ]

scan_first :
    (limit : ℕ) (m : Memory) (q x : ℕ)
    → m q ≡ x
    → x ≢ 0
    → is_white x ≡ false
    → scan_word (suc limit) m q ≡ scan_word limit m (suc q)
unfolding scan_word
scan_first limit m q x c nz word = rw (c, ne→!= x 0 nz, word) refl

parse_word :
    (fuel limit : ℕ) (m m1 : Memory) (p q b2 x : ℕ) (xs ys argv : List ℕ)
    → skip_white (suc limit) m p ≡ some (m1, q)
    → Skipped m m1 p q xs (x ∷ ys)
    → is_white x ≡ false
    → length argv ≢ 15
    → scan_word limit m1 (suc q) ≡ some b2
    → parse_args (suc fuel) (suc limit) m p argv
      ≡ parse_args fuel (suc limit) m1 b2 (argv ++ q ∷ [])
parse_word fuel limit m m1 p q b2 x xs ys argv ran s word few scanned =
    let (c, nz, str) = s.str in
    parse_white fuel (suc limit) m m1 p q argv ran
    ∙ rw
        (
          ne→== (m1 q) 0 (λ e. nz (sym c ∙ e)),
          ne→== (length argv) 15 few,
          scan_first limit m1 q x c nz word,
          scanned,
        )
        refl

IsParse-many :
    (fuel limit : ℕ) (m m1 : Memory) (p q x : ℕ) (xs ys argv : List ℕ)
    → skip_white limit m p ≡ some (m1, q)
    → Skipped m m1 p q xs (x ∷ ys)
    → is_white x ≡ false
    → length argv ≡ 15
    → IsParse m p xs argv (parse_args (suc fuel) limit m p argv)
unfolding IsParse starts
IsParse-many fuel limit m m1 p q x xs ys argv ran s word full =
    let (c, nz, str) = s.str in
    let stops = parse_white fuel limit m m1 p q argv ran in
    let one : starts false p xs ≡ q ∷ starts true (suc q) ys = s.same ∙ rw word refl in
    inr (
      stops ∙ rw (ne→== (m1 q) 0 (λ e. nz (sym c ∙ e)), eq→== (length argv) 15 full) refl,
      omega (arith, length-append argv (starts false p xs), ap length one),
    )

-- More rounds of each loop than there are characters are enough.
Parses : (fuel limit : ℕ) → Type 0
Parses fuel limit =
    (m : Memory) (p : ℕ) (xs argv : List ℕ)
    → IsString m p xs
    → length xs < fuel
    → length xs ≤ limit
    → length argv ≤ 15
    → IsParse m p xs argv (parse_args fuel (suc limit) m p argv)

IsParse-rest :
    (fuel limit : ℕ) (m m1 : Memory) (p q : ℕ) (xs rest argv : List ℕ)
    → Parses fuel limit
    → skip_white (suc limit) m p ≡ some (m1, q)
    → Skipped m m1 p q xs rest
    → AtWord rest
    → length xs ≤ fuel
    → length xs ≤ limit
    → length argv ≤ 15
    → IsParse m p xs argv (parse_args (suc fuel) (suc limit) m p argv)
unfolding Parses AtWord
IsParse-rest fuel limit m m1 p q xs [] argv ih ran s at h1 h2 h3 =
    IsParse-end fuel (suc limit) m m1 p q xs argv ran s h3
IsParse-rest fuel limit m m1 p q xs (x ∷ ys) argv ih ran s word h1 h2 h3 =
    elim (dec_lt (length argv) 15) [
      | no full ↦ IsParse-many fuel (suc limit) m m1 p q x xs ys argv ran s word (omega arith)
      | yes few ↦
          let (c, nz, str) = s.str in
          let (b2, rest, scanned, sc) =
            scan_word-Scanned limit m1 (suc q) ys str (omega (arith, s.left, s.from)) in
          let next =
            parse_word fuel limit m m1 p q b2 x xs ys argv ran s word (omega arith) scanned in
          let more : length (argv ++ q ∷ []) ≤ 15 = omega (arith, length-append argv (q ∷ [])) in
          rw next (
            IsParse-word m m1 p q b2 x xs ys rest argv _ s word sc (
              ih m1 b2 rest (argv ++ q ∷ []) sc.str
                (omega (arith, s.left, s.from, sc.left, sc.from))
                (omega (arith, s.left, s.from, sc.left, sc.from)) more))
    ]

parse_args-Parses : (fuel limit : ℕ) → Parses fuel limit
unfolding Parses
parse_args-Parses zero limit m p xs argv str h1 h2 h3 = absurd (omega arith)
parse_args-Parses (suc fuel) limit m p xs argv str h1 h2 h3 =
    let (m1, q, rest, ran, s, at) = skip_white-Skipped (suc limit) m p xs str (omega arith) in
    IsParse-rest fuel limit m m1 p q xs rest argv (parse_args-Parses fuel limit) ran s at
      (omega arith) h2 h3

-- With more rounds than the line has characters, parsing a line ends. If the line has at most 15
-- words, it gives the addresses at which the words start, in order, and a memory in which the line's
-- white space is NUL and all else is as before; if it has more, it reports too many arguments.
pub parse_args-starts :
    (limit : ℕ) (m : Memory) (p : ℕ) (xs : List ℕ)
    → IsString m p xs
    → length xs ≤ limit
    → ((m' : Memory) × (parse_args (suc limit) (suc limit) m p [] ≡ args m' (starts false p xs))
        × (length (starts false p xs) ≤ 15)
        × Blanked m m' p (p + length xs))
      ⊎ ((parse_args (suc limit) (suc limit) m p [] ≡ too_many) × (15 < length (starts false p xs)))
unfolding Parses IsParse
parse_args-starts limit m p xs str h =
    parse_args-Parses (suc limit) limit m p xs [] str (omega arith) h (omega arith)
