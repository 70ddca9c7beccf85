-- ===== src/Radio/DriverTests.antt =====
-- The window and the peers across radio_configure, with a driver that accepts every call.
use esp_now_harness.Common.{◌+◌, ◌-◌, ◌≡◌, refl, ap, true, false, List, [], ◌∷◌, none, arith, ltb}
use esp_now_harness.Harness.{running}
use esp_now_harness.Metrics.{metrics_reset}
use esp_now_harness.Runtime.{System, esp_ok, pure}
use esp_now_harness.Runtime.Alone.{Slots, alone, take_slot}
use esp_now_harness.Control.Config.{zero_config}
use esp_now_harness.Radio.{radio_wait_idle, take_slots, give_slots}
use esp_now_harness.Radio.Tests.{take-held}
use esp_now_harness.Radio.Configure.{Peer, Driver, drain_slots, radio_configure}
use esp_now_harness.Radio.Window.{Keeps, Exclusive, drain_slots-free, radio_configure-free}
use esp_now_harness.Radio.Fence.{Places}
use esp_now_harness.Radio.Peers.{Roster, head?}

-- The slots at an idle radio, and a driver that accepts every call.
abbrev idle_radio : System Slots
idle_radio = record {
  node = record {
    config = record zero_config { tx_window = 5 };
    state = running;
    metrics = metrics_reset;
    current_tx_window = 2;
    handle = false;
    queue = true;
  };
  world = record { free = 2; mine = 0 };
}

abbrev willing : Driver Slots
willing = record {
  fetch_peer = pure none;
  del_peer = λ mac. pure tt;
  set_country_code = λ code. pure esp_ok;
  set_band_mode = λ band. pure esp_ok;
  set_channel = λ channel. pure esp_ok;
  set_max_tx_power = λ power. pure esp_ok;
  set_ps = λ ps. pure esp_ok;
  set_pmk = λ key. pure esp_ok;
  add_peer = λ peer. pure esp_ok;
  set_peer_rate_config = λ mac rate. pure esp_ok;
}

take-free : (s : Slots) → ((take_slot s).0 ≡ ltb 0 s.free) × ((take_slot s).1.free ≡ s.free - 1)
take-free s = ground arith

abbrev willing-Exclusive : Exclusive alone willing
unfolding Keeps
willing-Exclusive = record {
  free = λ (w : Slots). w.free;
  take_free = λ ms s. let t = take-free s.world in (t.0, t.1, refl);
  give_free = λ s. (refl, refl);
  fetch_peer_keeps = λ s. (refl, refl);
  del_peer_keeps = λ mac s. (refl, refl);
  country_keeps = λ code s. (refl, refl);
  band_keeps = λ band s. (refl, refl);
  channel_keeps = λ channel s. (refl, refl);
  power_keeps = λ power s. (refl, refl);
  ps_keeps = λ ps s. (refl, refl);
  pmk_keeps = λ key s. (refl, refl);
  add_peer_keeps = λ peer s. (refl, refl);
  rate_keeps = λ mac rate s. (refl, refl);
}

drain_slots-free_example :
    ((drain_slots alone willing 5 idle_radio).0 ≡ false)
    × ((drain_slots alone willing 5 idle_radio).1.world.free ≡ 0)
    × ((drain_slots alone willing 5 idle_radio).1.node ≡ idle_radio.node)
unfolding Keeps
drain_slots-free_example = drain_slots-free alone willing willing-Exclusive 5 idle_radio

radio_configure-free_example :
    ((radio_configure alone willing 20 idle_radio).1.world.free ≡ 5)
    × ((radio_configure alone willing 20 idle_radio).1.node
        ≡ record idle_radio.node { current_tx_window = 5 })
unfolding Keeps
radio_configure-free_example =
    radio_configure-free alone willing willing-Exclusive 20 idle_radio refl (omega arith)
      (omega arith)

take-total : (s : Slots) → (take_slot s).1.mine + (take_slot s).1.free ≡ s.mine + s.free
take-total s = ground arith

-- With one free slot of two, none is in flight while the caller has all.
abbrev alone_places : Places alone
alone_places = record {
  mine = λ (w : Slots). w.mine;
  rest = λ (w : Slots). w.free;
  flying = λ (w : Slots). 0;
  flying_in_rest = λ w. omega arith;
  take_mine = λ ms s. take-held s.world;
  take_total = λ ms s. take-total s.world;
}

idle_succeeds : (radio_wait_idle alone 1000 idle_radio).0 ≡ esp_ok
unfolding radio_wait_idle take_slots give_slots
idle_succeeds = refl

abbrev tail : List Peer → List Peer
tail [] = []
tail (p ∷ ps) = ps

-- A driver that keeps a list of peers and removes the first.
abbrev roster : Driver (List Peer)
roster = record {
  fetch_peer = λ s. (head? s.world, s);
  del_peer = λ mac s. (tt, record s { world = tail s.world });
  set_country_code = λ code. pure esp_ok;
  set_band_mode = λ band. pure esp_ok;
  set_channel = λ channel. pure esp_ok;
  set_max_tx_power = λ power. pure esp_ok;
  set_ps = λ ps. pure esp_ok;
  set_pmk = λ key. pure esp_ok;
  add_peer = λ peer. pure esp_ok;
  set_peer_rate_config = λ mac rate. pure esp_ok;
}

roster-Roster : Roster roster
roster-Roster = record {
  peers = λ (w : List Peer). w;
  fetch_head = λ s. refl;
  fetch_same = λ s. refl;
  del_head = λ peer rest s e. ap tail e;
}
