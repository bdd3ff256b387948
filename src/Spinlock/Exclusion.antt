-- ===== src/Spinlock/Exclusion.antt =====
-- Mutual exclusion and progress of the spin lock, under every schedule.
use joslab4_init.Base.{
  ℕ, ◌≡◌, ◌≢◌, ◌⊎◌, refl, ap, inl, inr, Bool, true, false, ◌&&◌, Option, none, some, List, [], ◌∷◌,
  arith, ◌==◌, update, if◌then◌else◌, update_self, eq→==, Bool-cases, sym, ◌∙◌,
}
use mathlib.Core.Path.{subst}
use joslab4_init.Spinlock.{
  Place, outside, spinning, taken, inside, leaving, System, is_cpu, holding, go, turn_at, turn,
  turns, unlocked,
}

-- From the exchange that took the lock to the one that frees it.
abbrev pub owns : Place → Bool
owns outside = false
owns spinning = false
owns _ = true

-- What `lk->cpu` is while CPU `o` owns the lock.
abbrev recorded : Place → ℕ → Option ℕ
recorded inside o = some o
recorded _ o = none

record IsFree (s : System) : Type 0 where
  open_ : s.locked ≡ 0
  nobody : s.cpu ≡ none
  none_owns : (c : ℕ) → owns (s.place c) ≡ false

record IsOwned (o : ℕ) (s : System) : Type 0 where
  closed : s.locked ≡ 1
  owner : owns (s.place o) ≡ true
  alone : (c : ℕ) → owns (s.place c) ≡ true → c ≡ o
  note : s.cpu ≡ recorded (s.place o) o

IsSound : System → Type 0
IsSound s = IsFree s ⊎ ((o : ℕ) × IsOwned o s)

is_cpu-recorded : (p : Place) (o c : ℕ) → c ≢ o → is_cpu (recorded p o) c ≡ false
is_cpu-recorded outside o c ne = refl
is_cpu-recorded spinning o c ne = refl
is_cpu-recorded taken o c ne = refl
is_cpu-recorded inside o c ne = ground arith
is_cpu-recorded leaving o c ne = refl

-- A CPU that does not own the lock moves to a place where it does not own it.
stays-IsFree : (c : ℕ) (p : Place) (s : System) → owns p ≡ false → IsFree s → IsFree (go c p s)
stays-IsFree c p s out f = record {
  open_ = f.open_;
  nobody = f.nobody;
  none_owns = λ d. ground (arith, f.none_owns d);
}

stays-IsOwned :
    (c o : ℕ) (p : Place) (s : System) → owns p ≡ false → c ≢ o → IsOwned o s → IsOwned o (go c p s)
stays-IsOwned c o p s out ne v =
    let same : update s.place c p o ≡ s.place o = ground arith in
    record {
      closed = v.closed;
      owner = rw same (v.owner);
      alone = λ d h. ground (arith, v.alone d);
      note = rw same (v.note);
    }

owner_moves :
    (c : ℕ) (p : Place) (s : System)
    → owns p ≡ true
    → IsOwned c s
    → IsOwned c (go c p (record s { cpu = recorded p c }))
owner_moves c p s inn v =
    let here : update s.place c p c ≡ p = update_self s.place c p in
    record {
      closed = v.closed;
      owner = rw here inn;
      alone = λ d h. ground (arith, v.alone d);
      note = rw here refl;
    }

takes : (c : ℕ) (s : System) → IsFree s → IsOwned c (go c taken (record s { locked = 1 }))
takes c s f =
    let here : update s.place c taken c ≡ taken = update_self s.place c taken in
    record {
      closed = refl;
      owner = rw here refl;
      alone = λ d h. ground (arith, f.none_owns d);
      note = rw here (f.nobody);
    }

releases :
    (c : ℕ) (s : System)
    → s.place c ≡ leaving
    → IsOwned c s
    → IsFree (go c outside (record s { locked = 0 }))
releases c s e v = record {
  open_ = refl;
  nobody = v.note ∙ ap (λ (p : Place). recorded p c) e;
  none_owns = λ d. ground (arith, v.alone d);
}

-- A CPU that stands where the owner stands is the owner.
the_owner : (c : ℕ) (s : System) → owns (s.place c) ≡ true → IsSound s → IsOwned c s
unfolding IsSound
the_owner c s h (inl f) = cc (f.none_owns c)
the_owner c s h (inr (o, v)) = subst (λ x. IsOwned x s) (sym (v.alone c h)) v

not_owner : (c o : ℕ) (s : System) → owns (s.place c) ≡ false → IsOwned o s → c ≢ o
not_owner c o s h v e = cc (rw e at h, v.owner)

-- Whether a CPU holds the lock, for each place where the code asks.
holding-false : (c : ℕ) (s : System) → owns (s.place c) ≡ false → IsSound s → holding c s ≡ false
unfolding IsSound holding
holding-false c s h (inl f) = ground (arith, f.open_)
holding-false c s h (inr (o, v)) =
    ground (arith, v.note, is_cpu-recorded (s.place o) o c (not_owner c o s h v))

holding-true : (c : ℕ) (s : System) → s.place c ≡ inside → IsOwned c s → holding c s ≡ true
unfolding holding
holding-true c s e v =
    let mine : s.cpu ≡ some c = v.note ∙ ap (λ (p : Place). recorded p c) e in
    rw (mine, v.closed) (ground arith)

-- One turn from a sound state does not panic and leaves a sound state.
Turned : Place → ℕ → System → Type 0
Turned p c s = (s' : System) × (turn_at p c s ≡ some s') × IsSound s'

turn_at-Turned : (p : Place) (c : ℕ) (s : System) → s.place c ≡ p → IsSound s → Turned p c s
unfolding Turned turn_at IsSound
turn_at-Turned outside c s e v =
    let free = holding-false c s (ap owns e) v in
    (
      go c spinning s,
      rw free refl,
      elim v [
        | inl f ↦ inl (stays-IsFree c spinning s refl f)
        | inr w ↦ inr (
          w.0,
          stays-IsOwned c (w.0) spinning s refl (not_owner c (w.0) s (ap owns e) (w.1)) (w.1),
        )
      ],
    )
turn_at-Turned spinning c s e (inl f) =
    (go c taken (record s { locked = 1 }), rw (f.open_) refl, inr (c, takes c s f))
turn_at-Turned spinning c s e (inr (o, v)) =
    let s' = record s { locked = 1 } in
    let v' : IsOwned o s' = record {
      closed = refl;
      owner = v.owner;
      alone = v.alone;
      note = v.note;
    } in
    (
      go c spinning s',
      rw (v.closed) refl,
      inr (o, stays-IsOwned c o spinning s' refl (not_owner c o s (ap owns e) v) v'),
    )
turn_at-Turned taken c s e v =
    let w = the_owner c s (ap owns e) v in
    (go c inside (record s { cpu = some c }), refl, inr (c, owner_moves c inside s refl w))
turn_at-Turned inside c s e v =
    let w = the_owner c s (ap owns e) v in
    let held = holding-true c s e w in
    (go c leaving (record s { cpu = none }), rw held refl, inr (c, owner_moves c leaving s refl w))
turn_at-Turned leaving c s e v =
    let w = the_owner c s (ap owns e) v in
    (go c outside (record s { locked = 0 }), refl, inl (releases c s e w))

turn-IsSound : (c : ℕ) (s : System) → IsSound s → (s' : System) × (turn c s ≡ some s') × IsSound s'
unfolding turn Turned
turn-IsSound c s v = turn_at-Turned (s.place c) c s refl v

turns-some :
    (c : ℕ) (cs : List ℕ) (s s' : System) → turn c s ≡ some s' → turns (c ∷ cs) s ≡ turns cs s'
unfolding turns
turns-some c cs s s' ran = rw (ran, turns) refl

turns-IsSound :
    (cs : List ℕ) (s : System) → IsSound s → (s' : System) × (turns cs s ≡ some s') × IsSound s'
unfolding turns
turns-IsSound [] s v = (s, refl, v)
turns-IsSound (c ∷ cs) s v =
    let (s1, ran, v1) = turn-IsSound c s v in
    let (s', rest, v') = turns-IsSound cs s1 v1 in (s', turns-some c cs s s1 ran ∙ rest, v')

unlocked-IsSound : IsSound unlocked
unfolding IsSound
unlocked-IsSound = inl (record { open_ = refl; nobody = refl; none_owns = λ c. refl })

alone_of_IsSound :
    (c d : ℕ) (s : System)
    → IsSound s
    → (if owns (s.place c) && owns (s.place d) then c == d else true) ≡ true
alone_of_IsSound c d s v = elim (Bool-cases (owns (s.place c))) [
  | inl hc ↦ elim (Bool-cases (owns (s.place d))) [
    | inl hd ↦ rw (hc, hd) (eq→== c d (sym ((the_owner c s hc v).alone d hd)))
    | inr hd ↦ rw (hc, hd) refl
  ]
  | inr hc ↦ rw hc refl
]

-- Under every schedule of the CPUs none of them panics in `spin_lock` or `spin_unlock`, and at the end
-- two CPUs that are both between the exchange that took the lock and the one that frees it are the
-- same.
pub turns-alone :
    (cs : List ℕ) (c d : ℕ)
    → (s : System) × (turns cs unlocked ≡ some s)
      × ((if owns (s.place c) && owns (s.place d) then c == d else true) ≡ true)
turns-alone cs c d =
    let (s, ran, v) = turns-IsSound cs unlocked unlocked-IsSound in
    (s, ran, alone_of_IsSound c d s v)

free_of_nobody : (s : System) → ((d : ℕ) → owns (s.place d) ≡ false) → IsSound s → s.locked ≡ 0
unfolding IsSound
free_of_nobody s nobody (inl f) = f.open_
free_of_nobody s nobody (inr (o, v)) = cc (nobody o, v.owner)

-- When a schedule has left nobody with the lock, the next CPU whose turn it is in the loop of
-- `spin_lock` takes it.
pub turns-taken :
    (cs : List ℕ) (c : ℕ) (s : System)
    → turns cs unlocked ≡ some s
    → ((d : ℕ) → owns (s.place d) ≡ false)
    → s.place c ≡ spinning
    → (s' : System) × (turn c s ≡ some s') × (s'.place c ≡ taken)
unfolding turn turn_at
turns-taken cs c s ran nobody e =
    let (t, ran', v) = turns-IsSound cs unlocked unlocked-IsSound in
    let open_ : s.locked ≡ 0 =
      free_of_nobody s nobody (subst IsSound (some_inj t s (sym ran' ∙ ran)) v) in
    (go c taken (record s { locked = 1 }), rw (e, open_) refl, update_self s.place c taken)
  where
    some_inj : (a b : System) → some a ≡ some b → a ≡ b
    some_inj a b h = cc
