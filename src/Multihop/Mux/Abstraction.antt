-- ===== src/Multihop/Mux/Abstraction.antt =====
-- crates/gateway-multihop/src/mux.rs: the scheduler that the queue is, with its sessions for streams.
use vpn_ne_vpn.Prelude.{
  ℕ, ◌+◌, ◌≡◌, min, refl, ap, null, u64_max, Option, some, none, List, [], ◌∷◌, ◌++◌, length,
  unwrap_or, arith,
}
use vpn_ne_vpn.Prelude.Maps.{Map, lookup, insert, remove, nat_eq}
use vpn_ne_vpn.GatewayProtocol.Scheduler as Scheduler
use vpn_ne_vpn.GatewayProtocol.Scheduler.{OutboundItem, FairScheduler}
use vpn_ne_vpn.Multihop.Mux.{OutboundCommand, FairMuxQueue, bytes_of, saturating_bytes}

-- A frame with the bytes that it is charged.
abbrev pub item : OutboundCommand → OutboundItem OutboundCommand
item command = record { body = command; accounted_bytes = bytes_of command }

abbrev pub items : List OutboundCommand → List (OutboundItem OutboundCommand)
items [] = []
items (c ∷ cs) = item c ∷ items cs

abbrev pub streams : Map ℕ (List OutboundCommand) → Map ℕ (List (OutboundItem OutboundCommand))
streams [] = []
streams ((id, q) ∷ m) = (id, items q) ∷ streams m

abbrev pub some_items : Option (List OutboundCommand) → Option (List (OutboundItem OutboundCommand))
some_items none = none
some_items (some q) = some (items q)

abbrev pub some_item : Option OutboundCommand → Option (OutboundItem OutboundCommand)
some_item none = none
some_item (some c) = some (item c)

-- The scheduler that the queue is.
abbrev pub as_scheduler : FairMuxQueue → FairScheduler OutboundCommand
as_scheduler q = record {
  control = items q.control;
  streams = streams q.sessions;
  per_stream_bytes = q.per_session_bytes;
  active = q.active;
  queued_bytes = q.queued_bytes;
  maximum_queued_bytes = q.maximum_bytes;
  maximum_queued_bytes_per_stream = q.maximum_per_session_bytes;
  maximum_control_frames = q.maximum_control_frames;
  control_burst = q.control_burst;
}

pub items-append : (xs ys : List OutboundCommand) → items (xs ++ ys) ≡ items xs ++ items ys
items-append [] ys = refl
items-append (x ∷ xs) ys = ap (λ r. item x ∷ r) (items-append xs ys)

pub length-items : (xs : List OutboundCommand) → length (items xs) ≡ length xs
length-items [] = refl
length-items (x ∷ xs) = ground (arith, length-items xs)

pub null-items : (xs : List OutboundCommand) → null (items xs) ≡ null xs
null-items [] = refl
null-items (x ∷ xs) = refl

pub unwrap_or-items :
    (o : Option (List OutboundCommand)) → items (unwrap_or o []) ≡ unwrap_or (some_items o) []
unwrap_or-items none = refl
unwrap_or-items (some q) = refl

pub lookup-streams :
    (id : ℕ) (m : Map ℕ (List OutboundCommand)) → lookup id (streams m) ≡ some_items (lookup id m)
lookup-streams id [] = refl
lookup-streams id ((j, q) ∷ m) = ground (arith, lookup-streams id m)

pub insert-streams :
    (id : ℕ) (q : List OutboundCommand) (m : Map ℕ (List OutboundCommand))
    → streams (insert id q m) ≡ insert id (items q) (streams m)
insert-streams id q [] = refl
insert-streams id q ((j, r) ∷ m) = ground (arith, insert-streams id q m)

pub remove-streams :
    (id : ℕ) (m : Map ℕ (List OutboundCommand)) → streams (remove id m) ≡ remove id (streams m)
remove-streams id [] = refl
remove-streams id ((j, r) ∷ m) = ground (arith, remove-streams id m)

pub saturating_bytes-items :
    (n : ℕ) (q : List OutboundCommand)
    → Scheduler.saturating_bytes n (items q) ≡ saturating_bytes n q
saturating_bytes-items n [] = refl
saturating_bytes-items n (c ∷ q) =
    ground (arith, saturating_bytes-items (min (n + bytes_of c) u64_max) q)
