-- ===== src/Printfmt/Buffer.antt =====
-- `vsnprintf` of lib/printfmt.c, for buffers that do not overlap what the format makes it read: the
-- characters are those of the memory before the call. The theorem on it asks that no change inside
-- the buffer has an effect on them.
use Prim.Native.Nat.{min}
use mathlib.Core.List.{map}
use joslab4_init.Base.{
  ℕ, zero, suc, ◌+◌, ◌-◌, ◌%◌, ◌<◌, ◌≡◌, ◌≢◌, ◌∙◌, ap, refl, inl, ◌||◌, List, [], ◌∷◌, arith, u32,
  ◌^◌, length, length-take, take, ltb, ◌==◌, update, if◌then◌else◌,
}
use joslab4_init.Base.Int.{ℤ, pos, negsuc}
use joslab4_init.Memory.{Memory}
use joslab4_init.String.Copy.{HasChars, HasChars-update, SameOutside}
use joslab4_init.Machine.{Error, e_inval}
use joslab4_init.Printfmt.{Printed, printed, no_args, out_of_fuel}
use joslab4_init.Printfmt.Convert.{vprintfmt}

pub record SprintBuf : Type 0 where
  pub mem : Memory
  pub buf : ℕ
  pub ebuf : ℕ
  pub cnt : ℕ

unfoldable pub sprintputch : (ch : ℕ) → SprintBuf → SprintBuf
sprintputch ch b =
    if ltb b.buf b.ebuf
    then record {
      mem = update b.mem b.buf (ch % 256);
      buf = b.buf + 1;
      ebuf = b.ebuf;
      cnt = b.cnt + 1;
    }
    else record b { cnt = b.cnt + 1 }

-- The calls for the characters that are printed.
unfoldable pub sprintputs : List ℕ → SprintBuf → SprintBuf
sprintputs [] b = b
sprintputs (ch ∷ out) b = sprintputs out (sprintputch ch b)

-- The count and the new memory.
pub data Sprinted : Type 0 where
  count : ℕ → Memory → Sprinted
  error : Error → Sprinted
  lacks_args : Sprinted
  lacks_fuel : Sprinted

abbrev pub finish : SprintBuf → Sprinted
finish b = count b.cnt (update b.mem b.buf 0)

-- `buf + n - 1` for an `n` that passes the test.
abbrev pub sprint : Memory → (buf n : ℕ) → Printed (Unit {0}) → Sprinted
sprint m buf n (printed out u) =
    finish (sprintputs out (record { mem = m; buf = buf; ebuf = u32 (buf + (n - 1)); cnt = 0 }))
sprint m buf n no_args = lacks_args
sprint m buf n out_of_fuel = lacks_fuel

unfoldable pub vsnprintf :
    (fuel limit : ℕ) → Memory → (buf : ℕ) → (n : ℤ) → (fmt : ℕ) → List ℕ → Sprinted
vsnprintf fuel limit m buf (negsuc n) fmt ap = error e_inval
vsnprintf fuel limit m buf (pos n) fmt ap =
    if (buf == 0) || ltb n 1 then error e_inval else sprint m buf n (vprintfmt fuel limit m fmt ap)

-- The characters as they are stored.
abbrev pub bytes : List ℕ → List ℕ
bytes = map (λ (c : ℕ). c % 256)

sprintputs_full :
    (out : List ℕ) (m : Memory) (d end cnt : ℕ)
    → end ≡ d
    → sprintputs out (record { mem = m; buf = d; ebuf = end; cnt = cnt })
      ≡ record { mem = m; buf = d; ebuf = end; cnt = cnt + length out }
unfolding sprintputs sprintputch
sprintputs_full [] m d end cnt e = ground arith
sprintputs_full (ch ∷ out) m d end cnt e = ground (arith, sprintputs_full out m d end (cnt + 1) e)

-- The buffer once the characters `out` are put into `size` bytes from `d` on.
record Stored (out : List ℕ) (m : Memory) (d size cnt : ℕ) (b : SprintBuf) : Type 0 where
  counted : b.cnt ≡ cnt + length out
  place : b.buf ≡ d + min size (length out)
  chars : HasChars b.mem d (bytes (take size out))
  same : SameOutside d size m b.mem

bytes-take_nil : (size : ℕ) → bytes (take size []) ≡ []
bytes-take_nil zero = refl
bytes-take_nil (suc size) = refl

sprintputch_room :
    (ch d end cnt : ℕ) (m : Memory)
    → d < end
    → sprintputch ch (record { mem = m; buf = d; ebuf = end; cnt = cnt })
      ≡ record { mem = update m d (ch % 256); buf = suc d; ebuf = end; cnt = cnt + 1 }
unfolding sprintputch
sprintputch_room ch d end cnt m h = ground arith

Stored-cons :
    (size ch : ℕ) (out : List ℕ) (m : Memory) (d cnt : ℕ) (b : SprintBuf)
    → Stored out (update m d (ch % 256)) (suc d) size (cnt + 1) b
    → Stored (ch ∷ out) m d (suc size) cnt b
Stored-cons size ch out m d cnt b s = record {
  counted = omega (arith, s.counted);
  place = omega (arith, s.place);
  chars = (s.same d (inl (omega arith)) ∙ ground arith, s.chars);
  same = λ a out. s.same a (omega arith) ∙ ground arith;
}

sprintputs-Stored :
    (size : ℕ) (out : List ℕ) (m : Memory) (d end cnt : ℕ)
    → end ≡ d + size
    → Stored out m d size cnt (sprintputs out (record { mem = m; buf = d; ebuf = end; cnt = cnt }))
unfolding sprintputs
sprintputs-Stored size [] m d end cnt e = record {
  counted = omega arith;
  place = omega arith;
  chars = rw (bytes-take_nil size) tt;
  same = λ a out. refl;
}
sprintputs-Stored zero (ch ∷ out) m d end cnt e =
    let f = sprintputs_full (ch ∷ out) m d end cnt (omega arith) in
    record {
      counted = ap (λ b. b.cnt) f;
      place = ap (λ b. b.buf) f ∙ omega arith;
      chars = tt;
      same = λ a out. ap (λ b. b.mem a) f;
    }
sprintputs-Stored (suc size) (ch ∷ out) m d end cnt e =
    let ih =
      sprintputs-Stored size out (update m d (ch % 256)) (suc d) end (cnt + 1) (omega arith) in
    rw (sprintputch_room ch d end cnt m (omega arith)) (Stored-cons size ch out m d cnt _ ih)

without_buffer :
    (fuel limit : ℕ) (m : Memory) (n : ℤ) (fmt : ℕ) (args : List ℕ)
    → vsnprintf fuel limit m 0 n fmt args ≡ error e_inval
unfolding vsnprintf
without_buffer fuel limit m (pos n) fmt args = refl
without_buffer fuel limit m (negsuc n) fmt args = refl

vsnprintf_room :
    (fuel limit : ℕ) (m : Memory) (buf size fmt : ℕ) (args out : List ℕ)
    → buf ≢ 0
    → vprintfmt fuel limit m fmt args ≡ printed out tt
    → vsnprintf fuel limit m buf (pos (suc size)) fmt args
      ≡ sprint m buf (suc size) (printed out tt)
unfolding vsnprintf
vsnprintf_room fuel limit m buf size fmt args out nz ran = ground (arith, ran)

length-bytes : (xs : List ℕ) → length (bytes xs) ≡ length xs
length-bytes [] = refl
length-bytes (x ∷ xs) = ap suc (length-bytes xs)

-- `vsnprintf` into `size + 1` bytes at a `buf` that is not NULL, which end below 2 ^ 32, when the format
-- prints `out` in this memory and in every one that differs from it only inside these bytes: it
-- returns the length of all of `out`, stores the first `size` bytes of it, ends what it stores with a
-- NUL, and writes nothing outside the `size + 1` bytes. Without a buffer, or with `n` below 1, it
-- returns the error for an invalid parameter.
pub vsnprintf-HasChars :
    (fuel limit : ℕ) (m : Memory) (buf size fmt : ℕ) (args out : List ℕ)
    → buf ≢ 0
    → buf + size < 2 ^ 32
    → ((m1 : Memory)
        → SameOutside buf (suc size) m m1
        → vprintfmt fuel limit m1 fmt args ≡ printed out tt)
    → ((m' : Memory) × (vsnprintf fuel limit m buf (pos (suc size)) fmt args
          ≡ count (length out) m')
        × HasChars m' buf (bytes (take size out))
        × (m' (buf + min size (length out)) ≡ 0)
        × SameOutside buf (suc size) m m')
      × ((n : ℤ) → vsnprintf fuel limit m 0 n fmt args ≡ error e_inval)
      × (vsnprintf fuel limit m buf (pos 0) fmt args ≡ error e_inval)
      × ((k : ℕ) → vsnprintf fuel limit m buf (negsuc k) fmt args ≡ error e_inval)
unfolding vsnprintf
vsnprintf-HasChars fuel limit m buf size fmt args out nz fits prints =
    let ran = prints m (λ a out. refl) in
    let end = u32 (buf + (suc size - 1)) in
    let s = sprintputs-Stored size out m buf end 0 (omega arith) in
    let b = sprintputs out (record { mem = m; buf = buf; ebuf = end; cnt = 0 }) in
    let n = length-take size out in
    (
      (
        update b.mem b.buf 0,
        vsnprintf_room fuel limit m buf size fmt args out nz ran
            ∙ ap (λ k. count k (update b.mem b.buf 0)) (s.counted ∙ omega arith),
        HasChars-update b.mem buf b.buf 0 (bytes (take size out))
            (omega (arith, s.place, n, length-bytes (take size out))) s.chars,
        ground (arith, s.place),
        λ a out. ground (arith, s.place, s.same a),
      ),
      λ n. without_buffer fuel limit m n fmt args,
      ground arith,
      λ k. refl,
    )
