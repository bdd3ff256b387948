-- ===== src/Monitor/Backtrace.antt =====
-- `mon_backtrace` of kern/monitor.c: the stack frames that it prints.
use joslab4_init.Base.{
  ℕ, zero, suc, ◌+◌, ◌<◌, ◌≡◌, ◌≢◌, refl, ap, Option, none, some, List, [], ◌∷◌, u32, ◌==◌, ne→==,
  length, arith, if◌then◌else◌,
}
use mathlib.Core.Option.{map}
use joslab4_init.Memory.{Memory, word}

-- What a line shows: `ebp`, `eip` and the five words behind it.
pub record Frame : Type 0 where
  pub ebp : ℕ
  pub eip : ℕ
  pub args : List ℕ

abbrev pub frame_at : Memory → ℕ → Frame
frame_at mem ebp = record {
  ebp = ebp;
  eip = word mem (u32 (ebp + 4));
  args =
      word mem (u32 (ebp + 8))
      ∷ word mem (u32 (ebp + 12))
      ∷ word mem (u32 (ebp + 16))
      ∷ word mem (u32 (ebp + 20))
      ∷ word mem (u32 (ebp + 24))
      ∷ [];
}

-- The loop, with fuel for its rounds.
unfoldable pub mon_backtrace : (fuel : ℕ) → Memory → (ebp : ℕ) → Option (List Frame)
mon_backtrace zero mem ebp = none
mon_backtrace (suc fuel) mem ebp =
    let rest = mon_backtrace fuel mem (word mem ebp) in
    if ebp == 0 then some [] else map (λ (fs : List Frame). frame_at mem ebp ∷ fs) rest

-- The saved frame pointers lead from `ebp` through these addresses, none of them 0, to 0.
abbrev pub IsStack : Memory → (ebp : ℕ) → List ℕ → Type 0
IsStack mem ebp [] = ebp ≡ 0
IsStack mem ebp (a ∷ ebps) = (ebp ≡ a) × (a ≢ 0) × IsStack mem (word mem a) ebps

abbrev pub frames : Memory → List ℕ → List Frame
frames mem [] = []
frames mem (a ∷ ebps) = frame_at mem a ∷ frames mem ebps

-- The loop ends and shows each frame of the stack, from the innermost on, where the saved frame
-- pointers lead to 0, with fuel for one more round than there are frames.
pub mon_backtrace-frames :
    (fuel : ℕ) (mem : Memory) (ebp : ℕ) (ebps : List ℕ)
    → length ebps < fuel
    → IsStack mem ebp ebps
    → mon_backtrace fuel mem ebp ≡ some (frames mem ebps)
unfolding mon_backtrace
mon_backtrace-frames zero mem ebp ebps h s = absurd (omega arith)
mon_backtrace-frames (suc fuel) mem ebp [] h s = rw s refl
mon_backtrace-frames (suc fuel) mem ebp (a ∷ ebps) h s =
    rw (s.0, ne→== a 0 s.1)
      (ap (map (λ (fs : List Frame). frame_at mem a ∷ fs))
        (mon_backtrace-frames fuel mem (word mem a) ebps (omega arith) s.2))
