-- ===== src/Tests/Devices.antt =====
-- Tests on the console.
use joslab4_init.Base.{
  ℕ, ◌≡◌, refl, true, false, List, [], ◌∷◌, arith, length, zero, suc, ◌==◌, if◌then◌else◌, ◌&&◌,
  some,
}
use joslab4_init.Spinlock.{System, spinning, go, turns, unlocked}
use joslab4_init.Spinlock.Exclusion.{owns, turns-alone}
use joslab4_init.Keyboard.{Shift, kbd_proc_data}
use joslab4_init.Keyboard.Release.{tapped, kbd-tapped}
use joslab4_init.Console.{Input, Screen, cons_getc, cga_putc}
use joslab4_init.Console.Queue.{IsQueue, Holds, cons_getc-IsQueue}
use joslab4_init.Console.Bounds.{Within, cga_putc-Within}

-- "hi" waits across the end of the ring.
abbrev hi : Input
hi = record { buf = λ i. if i == 511 then 104 else 105; rpos = 511; wpos = 1 }

hi-IsQueue : IsQueue hi (104 ∷ 105 ∷ [])
hi-IsQueue = record {
  chars = (refl, (refl, tt));
  room = omega arith;
  start = omega arith;
  end = omega arith;
}

cons_getc-IsQueue_example :
    (s' : Input) × (cons_getc true (0 ∷ 33 ∷ []) (63 ∷ []) hi ≡ (104, s'))
    × IsQueue s' (105 ∷ 33 ∷ 63 ∷ [])
cons_getc-IsQueue_example =
    cons_getc-IsQueue true (0 ∷ 33 ∷ []) (63 ∷ []) (104 ∷ 105 ∷ []) hi hi-IsQueue (omega arith)

abbrev zeroes : ℕ → List ℕ
zeroes zero = []
zeroes (suc n) = 7 ∷ zeroes n

length-zeroes : (n : ℕ) → length (zeroes n) ≡ n
length-zeroes zero = refl
length-zeroes (suc n) = omega (arith, length-zeroes n)

abbrev crowded : Input
crowded = record { buf = λ i. 7; rpos = 3; wpos = 2 }

crowded-Holds : (p n : ℕ) → Holds (λ i. 7) p (zeroes n)
crowded-Holds p zero = tt
crowded-Holds p (suc n) = (refl, crowded-Holds (suc p) n)

crowded-IsQueue : IsQueue crowded (zeroes 511)
crowded-IsQueue = record {
  chars = crowded-Holds 3 511;
  room = omega (arith, length-zeroes 511);
  start = omega arith;
  end = omega (arith, length-zeroes 511);
}

abbrev corner : Screen
corner = record { crt_buf = λ i. 0x0720; crt_pos = 1999 }

cga_putc-Within_example : Within corner (cga_putc 9 corner)
cga_putc-Within_example = cga_putc-Within 9 corner (omega arith)

-- CPU 1 takes the lock between the calls of CPU 0, which spins.
abbrev schedule : List ℕ
schedule = 0 ∷ 1 ∷ 1 ∷ 0 ∷ 1 ∷ 0 ∷ []

turns-alone_example :
    (s : System) × (turns schedule unlocked ≡ some s)
    × ((if owns (s.place 1) && owns (s.place 1) then 1 == 1 else true) ≡ true)
turns-alone_example = turns-alone schedule 1 1

abbrev waiting : System
waiting = go 0 spinning unlocked

abbrev no_keys : Shift
no_keys = record {
  shift = true;
  ctl = false;
  alt = false;
  capslock = false;
  numlock = false;
  scrolllock = false;
  e0esc = false;
}

-- The left shift key.
kbd-tapped_example :
    kbd_proc_data 1 0xAA (kbd_proc_data 1 0x2A no_keys).1 ≡ (some 0, tapped 0x2A no_keys)
kbd-tapped_example = kbd-tapped 0x2A no_keys refl (omega arith) (omega arith)
