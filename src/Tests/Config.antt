-- ===== src/Tests/Config.antt =====
-- Tests on the multiprocessor tables: a structure at 0x1000, and a table of two processors behind it, of
-- which the second is the boot processor.
use joslab4_init.Base.{
  ℕ, ◌+◌, ◌-◌, ◌≡◌, refl, Bool, true, Option, some, List, [], ◌∷◌, ◌++◌, arith, get_or, leb, ◌==◌,
  if◌then◌else◌,
}
use joslab4_init.Memory.{Memory, word}
use joslab4_init.Mpconfig.{
  ok, sum_bytes, matches, mp_loop, mpsearch1, mpsearch, mpconfig, Smp, mp_init,
}
use joslab4_init.Mpconfig.Floating.{IsFirst, mpsearch1-IsFirst}
use joslab4_init.Mpconfig.Processors.{
  processors, known_entries, boot_place, Configured, mp_init-processors,
}

abbrev structure : List ℕ
structure = 95 ∷ 77 ∷ 80 ∷ 95 ∷ 16 ∷ 16 ∷ 0 ∷ 0 ∷ 1 ∷ 4 ∷ 128 ∷ 0 ∷ 0 ∷ 0 ∷ 0 ∷ 0 ∷ []

abbrev header : List ℕ
header =
    80 ∷ 67 ∷ 77 ∷ 80 ∷ 84 ∷ 0 ∷ 4 ∷ 146 ∷ 0 ∷ 0 ∷ 0 ∷ 0 ∷ 0 ∷ 0 ∷ 0 ∷ 0 ∷ 0 ∷ 0 ∷ 0 ∷ 0 ∷ 0 ∷ 0 ∷ 0
    ∷ 0 ∷ 0 ∷ 0 ∷ 0 ∷ 0 ∷ 0 ∷ 0 ∷ 0 ∷ 0 ∷ 0 ∷ 0 ∷ 2 ∷ 0 ∷ 0 ∷ 0 ∷ 224 ∷ 254 ∷ 0 ∷ 0 ∷ 0 ∷ 0 ∷ []

abbrev entries : List ℕ
entries =
    0 ∷ 0 ∷ 1 ∷ 1 ∷ 0 ∷ 0 ∷ 0 ∷ 0 ∷ 0 ∷ 0 ∷ 0 ∷ 0 ∷ 0 ∷ 0 ∷ 0 ∷ 0 ∷ 0 ∷ 0 ∷ 0 ∷ 0 ∷ 0 ∷ 1 ∷ 1 ∷ 2
    ∷ 0 ∷ 0 ∷ 0 ∷ 0 ∷ 0 ∷ 0 ∷ 0 ∷ 0 ∷ 0 ∷ 0 ∷ 0 ∷ 0 ∷ 0 ∷ 0 ∷ 0 ∷ 0 ∷ []

abbrev tables : Memory
tables a =
    if leb 0x1000 a
    then get_or (structure ++ header ++ entries) (a - 0x1000) 0
    else if a == 0x40F
    then 1
    else 0

abbrev no_cpus : Smp
no_cpus = record {
  cpu_id = λ i. 0;
  cpu_started = λ i. Bool.false;
  bootcpu = 0;
  ismp = Bool.false;
  ncpu = 0;
  lapicaddr = 0;
  switched = Bool.false;
}

finds_tables : mpconfig 16 tables ≡ ok (some (0x1000, 0x1010))
unfolding mpconfig mpsearch mpsearch1 mp_loop matches sum_bytes
finds_tables = refl

two_processors : known_entries tables 0x1010 ≡ (1 ∷ 2 ∷ [], true)
unfolding known_entries processors
two_processors = refl

second_boots : boot_place 0 0 (1 ∷ 2 ∷ []) ≡ 1
unfolding boot_place
second_boots = refl

mp_init-processors_example :
    (s' : Smp) × (mp_init 16 tables no_cpus ≡ ok s')
    × Configured
        ((known_entries tables 0x1010).0)
        ((known_entries tables 0x1010).1)
        (word tables (0x1010 + 36))
        s'
mp_init-processors_example = mp_init-processors 16 0x1000 0x1010 tables no_cpus refl finds_tables

mpsearch1-IsFirst_example :
    (o : Option ℕ) × (mpsearch1 16 tables 0xFF0 1024 ≡ ok o) × IsFirst tables 0xFF0 (0xFF0 + 1024) o
mpsearch1-IsFirst_example = mpsearch1-IsFirst 16 tables 0xFF0 1024 (omega arith) (omega arith)
