-- ===== src/Client/State.antt =====
-- crates/common-types/src/state.rs: the states of the client's connection and the transitions between
-- them.
pub mod Safety
mod Tests
use vpn_ne_vpn.Prelude.{Bool, true, false}

pub data ClientConnectionState : Type 0 where
  disconnected preparing applying_kill_switch bootstrapping_tor loading_directory selecting_gateway
        authenticating :
      ClientConnectionState
  connected rotating reconnecting degraded disconnecting blocked fatal_error : ClientConnectionState

unfoldable pub can_transition_to : ClientConnectionState → ClientConnectionState → Bool
can_transition_to disconnected preparing = true
can_transition_to preparing applying_kill_switch = true
can_transition_to preparing disconnecting = true
can_transition_to preparing fatal_error = true
can_transition_to applying_kill_switch bootstrapping_tor = true
can_transition_to applying_kill_switch blocked = true
can_transition_to applying_kill_switch disconnecting = true
can_transition_to applying_kill_switch fatal_error = true
can_transition_to bootstrapping_tor loading_directory = true
can_transition_to bootstrapping_tor connected = true
can_transition_to bootstrapping_tor reconnecting = true
can_transition_to bootstrapping_tor blocked = true
can_transition_to bootstrapping_tor disconnecting = true
can_transition_to bootstrapping_tor fatal_error = true
can_transition_to loading_directory selecting_gateway = true
can_transition_to loading_directory degraded = true
can_transition_to loading_directory reconnecting = true
can_transition_to loading_directory blocked = true
can_transition_to loading_directory disconnecting = true
can_transition_to loading_directory fatal_error = true
can_transition_to selecting_gateway authenticating = true
can_transition_to selecting_gateway loading_directory = true
can_transition_to selecting_gateway degraded = true
can_transition_to selecting_gateway reconnecting = true
can_transition_to selecting_gateway blocked = true
can_transition_to selecting_gateway disconnecting = true
can_transition_to selecting_gateway fatal_error = true
can_transition_to authenticating connected = true
can_transition_to authenticating selecting_gateway = true
can_transition_to authenticating reconnecting = true
can_transition_to authenticating degraded = true
can_transition_to authenticating blocked = true
can_transition_to authenticating disconnecting = true
can_transition_to authenticating fatal_error = true
can_transition_to connected rotating = true
can_transition_to connected reconnecting = true
can_transition_to connected degraded = true
can_transition_to connected blocked = true
can_transition_to connected disconnecting = true
can_transition_to connected fatal_error = true
can_transition_to rotating connected = true
can_transition_to rotating degraded = true
can_transition_to rotating reconnecting = true
can_transition_to rotating blocked = true
can_transition_to rotating disconnecting = true
can_transition_to rotating fatal_error = true
can_transition_to reconnecting bootstrapping_tor = true
can_transition_to reconnecting loading_directory = true
can_transition_to reconnecting selecting_gateway = true
can_transition_to reconnecting authenticating = true
can_transition_to reconnecting connected = true
can_transition_to reconnecting degraded = true
can_transition_to reconnecting blocked = true
can_transition_to reconnecting disconnecting = true
can_transition_to reconnecting fatal_error = true
can_transition_to degraded loading_directory = true
can_transition_to degraded selecting_gateway = true
can_transition_to degraded authenticating = true
can_transition_to degraded connected = true
can_transition_to degraded rotating = true
can_transition_to degraded reconnecting = true
can_transition_to degraded blocked = true
can_transition_to degraded disconnecting = true
can_transition_to degraded fatal_error = true
can_transition_to disconnecting disconnected = true
can_transition_to disconnecting blocked = true
can_transition_to disconnecting fatal_error = true
can_transition_to blocked preparing = true
can_transition_to blocked disconnecting = true
can_transition_to blocked fatal_error = true
can_transition_to fatal_error disconnecting = true
can_transition_to _ _ = false

unfoldable pub requires_kill_switch : ClientConnectionState → Bool
requires_kill_switch disconnected = false
requires_kill_switch preparing = false
requires_kill_switch applying_kill_switch = false
requires_kill_switch _ = true
