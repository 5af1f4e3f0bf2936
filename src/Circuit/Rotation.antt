-- ===== src/Circuit/Rotation.antt =====
-- crates/circuit-manager/src/rotation.rs: the gate that every scheduled rotation passes. Times are in
-- nanoseconds.
pub mod Limits
mod Tests
use vpn_ne_vpn.Prelude.{
  ℕ, ◌-◌, ◌*◌, Bool, true, false, ◌||◌, if◌then◌else◌, ltb, leb, ◌==◌, Result, ok, err, and_then,
  Option, some, none, List, [], ◌∷◌, ◌++◌, length,
}
use vpn_ne_vpn.Client.Error.{OnionError, tor, invalid_configuration, error, never, not_applicable}

pub record RotationSchedulerConfig : Type 0 where
  pub minimum_spacing : ℕ
  pub fleet_window : ℕ
  pub maximum_in_window : ℕ

-- `accepted` has the oldest time in front.
pub record RotationGate : Type 0 where
  pub config : RotationSchedulerConfig
  pub accepted : List ℕ

abbrev pub second : ℕ
second = 1000000000

abbrev pub invalid_config : OnionError
invalid_config = record {
  domain = tor;
  code = invalid_configuration;
  severity = error;
  retry = never;
  safety = not_applicable;
  message = "invalid rotation scheduler configuration";
}

unfoldable pub validate : RotationSchedulerConfig → Result OnionError RotationSchedulerConfig
validate c =
    if c.minimum_spacing == 0
      || ltb (60 * second) c.minimum_spacing
      || ltb c.fleet_window c.minimum_spacing
      || ltb (10 * 60 * second) c.fleet_window
      || c.maximum_in_window == 0
      || ltb 32 c.maximum_in_window
    then err invalid_config
    else ok c

unfoldable pub new : RotationSchedulerConfig → Result OnionError RotationGate
unfolding validate
new config = and_then (validate config) λ c. ok (record { config = c; accepted = [] })

-- The `while` loop: the times that have left the window are dropped from the front.
unfoldable pub pop_expired : ℕ → ℕ → List ℕ → List ℕ
pop_expired window now [] = []
pop_expired window now (t ∷ ts) =
    let rest = pop_expired window now ts in if leb window (now - t) then rest else t ∷ ts

abbrev pub back : List ℕ → Option ℕ
back [] = none
back (t ∷ []) = some t
back (t ∷ u ∷ ts) = back (u ∷ ts)

abbrev pub too_soon : ℕ → ℕ → Option ℕ → Bool
too_soon spacing now none = false
too_soon spacing now (some t) = ltb (now - t) spacing

unfoldable pub try_acquire : ℕ → RotationGate → RotationGate × Bool
unfolding pop_expired
try_acquire now g =
    let kept = pop_expired g.config.fleet_window now g.accepted in
    if too_soon g.config.minimum_spacing now (back kept)
      || leb g.config.maximum_in_window (length kept)
    then (record g { accepted = kept }, false)
    else (record g { accepted = kept ++ (now ∷ []) }, true)
