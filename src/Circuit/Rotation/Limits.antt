-- ===== src/Circuit/Rotation/Limits.antt =====
-- crates/circuit-manager/src/rotation.rs: the rotations that the gate accepts over a history of
-- requests.
use vpn_ne_vpn.Prelude.{
  ℕ, suc, ◌+◌, ◌-◌, ◌≤◌, ◌<◌, ◌≡◌, ◌⊎◌, refl, ◌∙◌, subst, Bool, false, ◌||◌, if◌then◌else◌, ltb,
  leb, ok, some, List, [], ◌∷◌, ◌++◌, length, length-append, arith, Bool-cases, inl, inr,
}
use vpn_ne_vpn.Circuit.Rotation.{
  RotationSchedulerConfig, RotationGate, new, validate, pop_expired, back, too_soon, try_acquire,
}

-- A gate, the rotations that it has accepted, the latest first, and the time of the last request.
pub record History : Type 0 where
  pub gate : RotationGate
  pub log : List ℕ
  pub time : ℕ

unfoldable pub request : History → ℕ → History
request h now = record {
  gate = (try_acquire now h.gate).0;
  log = if (try_acquire now h.gate).1 then now ∷ h.log else h.log;
  time = now;
}

unfoldable pub run : History → List ℕ → History
unfolding request
run h [] = h
run h (now ∷ later) = run (request h now) later

-- The times do not go back.
abbrev pub Ascends : ℕ → List ℕ → Type 0
Ascends t [] = Unit {0}
Ascends t (u ∷ us) = (t ≤ u) × Ascends u us

-- The number of the times that are less than a window before `now`.
abbrev pub recent : ℕ → ℕ → List ℕ → ℕ
recent window now [] = 0
recent window now (t ∷ ts) =
    if ltb (now - t) window then suc (recent window now ts) else recent window now ts

-- Every time is at least the spacing after the one before it; the latest stands first.
abbrev pub IsSpaced : ℕ → List ℕ → Type 0
IsSpaced spacing [] = Unit {0}
IsSpaced spacing (t ∷ []) = Unit {0}
IsSpaced spacing (t ∷ u ∷ us) = (u + spacing ≤ t) × IsSpaced spacing (u ∷ us)

recent-pop_expired :
    (window now later : ℕ) (ts : List ℕ)
    → now ≤ later
    → recent window later (pop_expired window now ts) ≡ recent window later ts
unfolding pop_expired
recent-pop_expired window now later [] h = refl
recent-pop_expired window now later (t ∷ ts) h =
    ground (arith, recent-pop_expired window now later ts h)

recent-append :
    (window now t : ℕ) (ts : List ℕ)
    → recent window now (ts ++ (t ∷ [])) ≡ recent window now (t ∷ ts)
recent-append window now t [] = refl
recent-append window now t (u ∷ us) = ground (arith, recent-append window now t us)

recent-le : (window now : ℕ) (ts : List ℕ) → recent window now ts ≤ length ts
recent-le window now [] = omega arith
recent-le window now (t ∷ ts) = ground (arith, recent-le window now ts)

length-pop_expired-le :
    (window now : ℕ) (ts : List ℕ) → length (pop_expired window now ts) ≤ length ts
unfolding pop_expired
length-pop_expired-le window now [] = omega arith
length-pop_expired-le window now (t ∷ ts) = ground (arith, length-pop_expired-le window now ts)

back-append : (t : ℕ) (ts : List ℕ) → back (ts ++ (t ∷ [])) ≡ some t
back-append t [] = refl
back-append t (u ∷ []) = refl
back-append t (u ∷ v ∷ vs) = back-append t (v ∷ vs)

-- Expiry keeps the latest time or finds it out of the window.
back-pop_expired :
    (window now : ℕ) (ts : List ℕ)
    → (back (pop_expired window now ts) ≡ back ts)
      ⊎ ((t : ℕ) × (back ts ≡ some t) × (window ≤ now - t))
unfolding pop_expired
back-pop_expired window now [] = inl refl
back-pop_expired window now (t ∷ []) = ground arith
back-pop_expired window now (t ∷ u ∷ us) = ground (arith, back-pop_expired window now (u ∷ us))

-- The latest rotation stands at the back of the gate, or is out of the window.
abbrev pub IsLatest : ℕ → ℕ → List ℕ → List ℕ → Type 0
IsLatest window time accepted [] = Unit {0}
IsLatest window time accepted (t ∷ ts) =
    (t ≤ time) × ((back accepted ≡ some t) ⊎ (t + window ≤ time))

pub record IsValid (h : History) : Type 0 where
  pub spacing_le : h.gate.config.minimum_spacing ≤ h.gate.config.fleet_window
  pub bounded : length h.gate.accepted ≤ h.gate.config.maximum_in_window
  pub spaced : IsSpaced h.gate.config.minimum_spacing h.log
  pub latest : IsLatest h.gate.config.fleet_window h.time h.gate.accepted h.log
  pub kept :
      (now : ℕ)
      → h.time ≤ now
      → recent h.gate.config.fleet_window now h.log
        ≤ recent h.gate.config.fleet_window now h.gate.accepted

pop_expired-IsLatest :
    (window time now : ℕ) (ts log : List ℕ)
    → time ≤ now
    → IsLatest window time ts log
    → IsLatest window now (pop_expired window now ts) log
pop_expired-IsLatest window time now ts [] h l = tt
pop_expired-IsLatest window time now ts (t ∷ us) h l =
    ground (arith, back-pop_expired window now ts)

cons-IsSpaced :
    (window spacing now : ℕ) (ts log : List ℕ)
    → spacing ≤ window
    → IsLatest window now ts log
    → IsSpaced spacing log
    → too_soon spacing now (back ts) ≡ false
    → IsSpaced spacing (now ∷ log)
cons-IsSpaced window spacing now ts [] h l s b = tt
cons-IsSpaced window spacing now ts (t ∷ us) h l s b = ground arith

abbrev remaining : History → ℕ → List ℕ
remaining h now = pop_expired h.gate.config.fleet_window now h.gate.accepted

refused-IsValid :
    (h : History) (now : ℕ)
    → h.time ≤ now
    → IsValid h
    → IsValid (record {
      gate = record { config = h.gate.config; accepted = remaining h now };
      log = h.log;
      time = now;
    })
refused-IsValid h now le v =
    let window = h.gate.config.fleet_window in
    record {
      spacing_le = v.spacing_le;
      bounded = ground (arith, v.bounded, length-pop_expired-le window now h.gate.accepted);
      spaced = v.spaced;
      latest = pop_expired-IsLatest window h.time now h.gate.accepted h.log le v.latest;
      kept = λ later q.
          ground (arith, v.kept later, recent-pop_expired window now later h.gate.accepted);
    }

accepted-IsValid :
    (h : History) (now : ℕ)
    → h.time ≤ now
    → IsValid h
    → too_soon h.gate.config.minimum_spacing now (back (remaining h now)) ≡ false
    → length (remaining h now) < h.gate.config.maximum_in_window
    → IsValid (record {
      gate = record { config = h.gate.config; accepted = remaining h now ++ (now ∷ []) };
      log = now ∷ h.log;
      time = now;
    })
accepted-IsValid h now le v far room =
    let r = refused-IsValid h now le v in
    let window = h.gate.config.fleet_window in
    record {
      spacing_le = v.spacing_le;
      bounded = ground (arith, length-append (remaining h now) (now ∷ []));
      spaced =
          cons-IsSpaced window h.gate.config.minimum_spacing now (remaining h now) h.log
            v.spacing_le r.latest v.spaced far;
      latest = (omega arith, inl (back-append now (remaining h now)));
      kept = λ later q.
          ground (arith, r.kept later q, recent-append window later now (remaining h now));
    }

request-IsValid : (h : History) (now : ℕ) → h.time ≤ now → IsValid h → IsValid (request h now)
unfolding request try_acquire
request-IsValid h now le v = elim (Bool-cases (refuses h now)) [
  | inl e ↦ ground (arith, refused-IsValid h now le v)
  | inr e ↦ ground (arith, accepted-IsValid h now le v)
]
  where
    refuses : History → ℕ → Bool
    refuses h now =
        too_soon h.gate.config.minimum_spacing now (back (remaining h now))
        || leb h.gate.config.maximum_in_window (length (remaining h now))

run-IsValid : (h : History) (ts : List ℕ) → Ascends h.time ts → IsValid h → IsValid (run h ts)
unfolding run request
run-IsValid h [] a v = v
run-IsValid h (now ∷ later) a v =
    run-IsValid (request h now) later a.1 (request-IsValid h now a.0 v)

abbrev pub start : RotationGate → History
start g = record { gate = g; log = []; time = 0 }

new-IsValid :
    (c : RotationSchedulerConfig) (g : RotationGate)
    → new c ≡ ok g
    → IsValid (start g) × (g.config ≡ c)
unfolding new validate
new-IsValid c g h = ground arith

run-config : (h : History) (ts : List ℕ) → (run h ts).gate.config ≡ h.gate.config
unfolding run request try_acquire
run-config h [] = refl
run-config h (t ∷ ts) = ground (arith, run-config (request h t) ts)

-- However often rotations are asked for, at times that do not go back, those accepted are the spacing
-- apart, and at no time `now` from the last request on have more than the maximum been accepted in
-- the window before it.
pub gate_respects_limits :
    (c : RotationSchedulerConfig) (g : RotationGate) (ts : List ℕ) (now : ℕ)
    → new c ≡ ok g
    → Ascends 0 ts
    → (run (start g) ts).time ≤ now
    → IsSpaced c.minimum_spacing (run (start g) ts).log
      × (recent c.fleet_window now (run (start g) ts).log ≤ c.maximum_in_window)
gate_respects_limits c g ts now n a t =
    let (v, e) = new-IsValid c g n in
    let w = run-IsValid (start g) ts a v in
    let h = run (start g) ts in
    let window = h.gate.config.fleet_window in
    subst
      (λ z.
        IsSpaced z.minimum_spacing h.log × (recent z.fleet_window now h.log ≤ z.maximum_in_window))
      (run-config (start g) ts ∙ e)
      (w.spaced, ground (arith, w.kept now t, recent-le window now h.gate.accepted, w.bounded))
