-- ===== src/Printfmt/Cprintf.antt =====
-- `cprintf` of user programs (lib/printf.c), which collects the output for calls of `sys_cputs`, and
-- of the kernel (kern/printf.c), which calls `cputchar` for each character.
use mathlib.Core.List.{map-append, append_assoc}
use native.Mathlib.Decide.{dec_lt}
use joslab4_init.Base.{
  ℕ, zero, suc, ◌+◌, ◌%◌, ◌≤◌, ◌<◌, ◌≡◌, ◌≢◌, ◌∙◌, ap, refl, sym, true, false, List, [], ◌∷◌, ◌++◌,
  arith, length, length-append, append-nil, append_one, All, ◌==◌, update, if◌then◌else◌,
}
use joslab4_init.Memory.{Memory}
use joslab4_init.Printfmt.{Printed, printed, no_args, out_of_fuel}
use joslab4_init.Printfmt.Convert.{vprintfmt}
use joslab4_init.Printfmt.Buffer.{bytes}

-- The bytes of the call `sys_cputs(s, len)`, from the `i`th on.
unfoldable pub chars_from : (buf : ℕ → ℕ) (i n : ℕ) → List ℕ
chars_from buf i zero = []
chars_from buf i (suc n) = buf i ∷ chars_from buf (suc i) n

-- `calls` holds the bytes of each call of `sys_cputs` so far.
pub record Printbuf : Type 0 where
  pub idx : ℕ
  pub cnt : ℕ
  pub buf : ℕ → ℕ
  pub calls : List (List ℕ)

abbrev pub flush_buf : Printbuf → Printbuf
flush_buf b = record b { calls = b.calls ++ chars_from b.buf 0 b.idx ∷ [] }

unfoldable pub putch : (ch : ℕ) → Printbuf → Printbuf
putch ch b =
    let b1 = record b { buf = update b.buf b.idx (ch % 256); idx = b.idx + 1 } in
    let b2 = if b1.idx == 255 then record (flush_buf b1) { idx = 0 } else b1 in
    record b2 { cnt = b2.cnt + 1 }

unfoldable pub putchs : List ℕ → Printbuf → Printbuf
putchs [] b = b
putchs (ch ∷ out) b = putchs out (putch ch b)

-- What is returned, with the calls that print.
pub data Cprinted (A : Type 0) : Type 0 where
  cprinted : (calls : List A) → (cnt : ℕ) → Cprinted A
  lacks_args : Cprinted A
  lacks_fuel : Cprinted A

abbrev pub finish_print : Printbuf → Cprinted (List ℕ)
finish_print b = let b1 = flush_buf b in cprinted b1.calls b1.cnt

-- `buf` is not initialised: `garbage` is what stands there.
abbrev pub empty_buf : (garbage : ℕ → ℕ) → Printbuf
empty_buf garbage = record { idx = 0; cnt = 0; buf = garbage; calls = [] }

abbrev pub collect : (garbage : ℕ → ℕ) → Printed (Unit {0}) → Cprinted (List ℕ)
collect garbage (printed out u) = finish_print (putchs out (empty_buf garbage))
collect garbage no_args = lacks_args
collect garbage out_of_fuel = lacks_fuel

unfoldable pub vcprintf :
    (garbage : ℕ → ℕ) (fuel limit : ℕ) → Memory → (fmt : ℕ) → List ℕ → Cprinted (List ℕ)
vcprintf garbage fuel limit m fmt ap = collect garbage (vprintfmt fuel limit m fmt ap)

-- The kernel's `putch`: `*cnt++` moves the parameter `cnt` and leaves the count.
abbrev pub kernel_putch : (ch : ℕ) → List ℕ × ℕ → List ℕ × ℕ
kernel_putch ch (calls, cnt) = (calls ++ ch ∷ [], cnt)

unfoldable pub kernel_putchs : List ℕ → List ℕ × ℕ → List ℕ × ℕ
kernel_putchs [] s = s
kernel_putchs (ch ∷ out) s = kernel_putchs out (kernel_putch ch s)

abbrev pub kernel_collect : Printed (Unit {0}) → Cprinted ℕ
kernel_collect (printed out u) = let s = kernel_putchs out ([], 0) in cprinted (s.0) (s.1)
kernel_collect no_args = lacks_args
kernel_collect out_of_fuel = lacks_fuel

-- The kernel's `vcprintf`, with the calls of `cputchar`.
unfoldable pub kernel_vcprintf : (fuel limit : ℕ) → Memory → (fmt : ℕ) → List ℕ → Cprinted ℕ
kernel_vcprintf fuel limit m fmt ap = kernel_collect (vprintfmt fuel limit m fmt ap)

abbrev pub concat : List (List ℕ) → List ℕ
concat [] = []
concat (xs ∷ xss) = xs ++ concat xss

concat-append : (xss : List (List ℕ)) (xs : List ℕ) → concat (xss ++ xs ∷ []) ≡ concat xss ++ xs
concat-append [] xs = append-nil xs
concat-append (ys ∷ xss) xs =
    ap (λ (zs : List ℕ). ys ++ zs) (concat-append xss xs) ∙ sym (append_assoc ys (concat xss) xs)

-- Calls of at most 255 bytes.
abbrev AllShort : List (List ℕ) → Type 0
AllShort = All (λ (xs : List ℕ). length xs ≤ 255)

AllShort-append :
    (xss : List (List ℕ)) (xs : List ℕ) → AllShort xss → length xs ≤ 255 → AllShort (xss ++ xs ∷ [])
AllShort-append [] xs a h = (h, tt)
AllShort-append (ys ∷ xss) xs (b, a) h = (b, AllShort-append xss xs a h)

length-chars_from : (buf : ℕ → ℕ) (i n : ℕ) → length (chars_from buf i n) ≡ n
unfolding chars_from
length-chars_from buf i zero = refl
length-chars_from buf i (suc n) = ap suc (length-chars_from buf (suc i) n)

chars_from-update :
    (buf : ℕ → ℕ) (i n a c : ℕ)
    → a ≡ i + n
    → chars_from (update buf a c) i (suc n) ≡ chars_from buf i n ++ c ∷ []
unfolding chars_from
chars_from-update buf i zero a c e = ground arith
chars_from-update buf i (suc n) a c e =
    let ih = chars_from-update buf (suc i) n a c (omega arith) in
    let here : update buf a c i ≡ buf i = ground arith in rw (here, sym ih) refl

-- The buffer when `done` is printed.
record Holds (done : List ℕ) (b : Printbuf) : Type 0 where
  room : b.idx < 255
  counted : b.cnt ≡ length done
  contents : concat b.calls ++ chars_from b.buf 0 b.idx ≡ bytes done
  short : AllShort b.calls

contents-putch :
    (done : List ℕ) (b : Printbuf) (ch : ℕ)
    → concat b.calls ++ chars_from b.buf 0 b.idx ≡ bytes done
    → concat b.calls ++ chars_from (update b.buf b.idx (ch % 256)) 0 (b.idx + 1)
      ≡ bytes (done ++ ch ∷ [])
contents-putch done b ch h =
    ap (λ (n : ℕ). concat b.calls ++ chars_from (update b.buf b.idx (ch % 256)) 0 n) (omega arith)
    ∙ ap (λ (xs : List ℕ). concat b.calls ++ xs)
        (chars_from-update b.buf 0 b.idx b.idx (ch % 256) (omega arith))
    ∙ sym (append_assoc (concat b.calls) (chars_from b.buf 0 b.idx) (ch % 256 ∷ []))
    ∙ ap (λ (xs : List ℕ). xs ++ ch % 256 ∷ []) h
    ∙ sym (map-append (λ (c : ℕ). c % 256) done (ch ∷ []))

putch_room :
    (ch : ℕ) (b : Printbuf)
    → b.idx + 1 ≢ 255
    → putch ch b ≡ record {
      idx = b.idx + 1;
      cnt = b.cnt + 1;
      buf = update b.buf b.idx (ch % 256);
      calls = b.calls;
    }
unfolding putch
putch_room ch b h = let t : (b.idx + 1 == 255) ≡ false = ground arith in rw t refl

putch_full :
    (ch : ℕ) (b : Printbuf)
    → b.idx + 1 ≡ 255
    → putch ch b ≡ record {
      idx = 0;
      cnt = b.cnt + 1;
      buf = update b.buf b.idx (ch % 256);
      calls = b.calls ++ chars_from (update b.buf b.idx (ch % 256)) 0 (b.idx + 1) ∷ [];
    }
unfolding putch
putch_full ch b h = let t : (b.idx + 1 == 255) ≡ true = ground arith in rw t refl

Holds-putch :
    (done : List ℕ) (b : Printbuf) (ch : ℕ) → Holds done b → Holds (done ++ ch ∷ []) (putch ch b)
unfolding chars_from
Holds-putch done b ch h = elim (dec_lt (b.idx + 1) 255) [
  | yes more ↦ rw (putch_room ch b (omega arith)) (record {
    room = omega (arith, h.room);
    counted = omega (arith, h.counted, length-append done (ch ∷ []));
    contents = contents-putch done b ch h.contents;
    short = h.short;
  })
  | no full ↦
      let buf = update b.buf b.idx (ch % 256) in
      let xs = chars_from buf 0 (b.idx + 1) in
      rw (putch_full ch b (omega (arith, h.room))) (record {
        room = omega arith;
        counted = omega (arith, h.counted, length-append done (ch ∷ []));
        contents =
            append-nil (concat (b.calls ++ xs ∷ []))
            ∙ concat-append b.calls xs
            ∙ contents-putch done b ch h.contents;
        short =
            AllShort-append b.calls xs h.short (omega (arith, length-chars_from buf 0 (b.idx + 1)));
      })
]

Holds-putchs :
    (out done : List ℕ) (b : Printbuf) → Holds done b → Holds (done ++ out) (putchs out b)
unfolding putchs
Holds-putchs [] done b h = rw (append-nil done) h
Holds-putchs (ch ∷ out) done b h =
    let rest = Holds-putchs out (done ++ ch ∷ []) (putch ch b) (Holds-putch done b ch h) in
    rw (append_one done ch out) at rest

Holds-empty : (garbage : ℕ → ℕ) → Holds [] (empty_buf garbage)
unfolding chars_from
Holds-empty garbage = record { room = omega arith; counted = refl; contents = refl; short = tt }

-- When the format prints `out`, `vcprintf` of a user program returns the length of `out`, whatever
-- stands in its buffer at first; its calls of `sys_cputs` pass at most 255 bytes each, and the bytes
-- of all calls in order are `out`.
pub vcprintf-concat :
    (garbage : ℕ → ℕ) (fuel limit : ℕ) (m : Memory) (fmt : ℕ) (args out : List ℕ)
    → vprintfmt fuel limit m fmt args ≡ printed out tt
    → (calls : List (List ℕ)) × (vcprintf garbage fuel limit m fmt args
        ≡ cprinted calls (length out))
      × (concat calls ≡ bytes out)
      × All (λ (xs : List ℕ). length xs ≤ 255) calls
unfolding vcprintf
vcprintf-concat garbage fuel limit m fmt args out ran =
    let b = putchs out (empty_buf garbage) in
    let h : Holds out b = Holds-putchs out [] (empty_buf garbage) (Holds-empty garbage) in
    let xs = chars_from b.buf 0 b.idx in
    (
      b.calls ++ xs ∷ [],
      ap (collect garbage) ran ∙ ap (λ n. cprinted (b.calls ++ xs ∷ []) n) h.counted,
      concat-append b.calls xs ∙ h.contents,
      AllShort-append b.calls xs h.short (omega (arith, h.room, length-chars_from b.buf 0 b.idx)),
    )

kernel_putchs-append :
    (out calls : List ℕ) (cnt : ℕ) → kernel_putchs out (calls, cnt) ≡ (calls ++ out, cnt)
unfolding kernel_putchs
kernel_putchs-append [] calls cnt = ap (λ (xs : List ℕ). (xs, cnt)) (sym (append-nil calls))
kernel_putchs-append (ch ∷ out) calls cnt =
    kernel_putchs-append out (calls ++ ch ∷ []) cnt
    ∙ ap (λ (xs : List ℕ). (xs, cnt)) (append_one calls ch out)

-- When the format prints `out`, `vcprintf` of the kernel calls `cputchar` for the characters of `out`
-- in order, and returns 0, whatever the length of `out`.
pub kernel_vcprintf_lem :
    (fuel limit : ℕ) (m : Memory) (fmt : ℕ) (args out : List ℕ)
    → vprintfmt fuel limit m fmt args ≡ printed out tt
    → kernel_vcprintf fuel limit m fmt args ≡ cprinted out 0
unfolding kernel_vcprintf
kernel_vcprintf_lem fuel limit m fmt args out ran =
    ap kernel_collect ran
    ∙ ap (λ (s : List ℕ × ℕ). cprinted (s.0) (s.1)) (kernel_putchs-append out [] 0)
