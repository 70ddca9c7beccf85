-- ===== src/Radio/Peers.antt =====
-- The loop of radio_configure in firmware/main/radio.c that removes the peers.
use esp_now_harness.Common.{
  ℕ, zero, suc, ◌<◌, ◌≡◌, refl, ap, ◌∙◌, List, [], ◌∷◌, length, Option, none, some, arith,
}
use esp_now_harness.Runtime.{System, Platform}
use esp_now_harness.Radio.Configure.{Peer, Driver, remove_found, remove_peers}

abbrev pub head? : {A : Type 0} → List A → Option A
head? [] = none
head? (a ∷ as') = some a

-- The driver's list of peers: it is fetched from the head while there is one, and a peer that was
-- fetched can be removed.
pub record Roster {W : Type 0} (d : Driver W) : Type 0 where
  pub peers : W → List Peer
  pub fetch_head : (s : System W) → (d.fetch_peer s).0 ≡ head? (peers s.world)
  pub fetch_same : (s : System W) → peers (d.fetch_peer s).1.world ≡ peers s.world
  pub del_head :
      (peer : Peer) (rest : List Peer) (s : System W)
      → peers s.world ≡ peer ∷ rest
      → peers (d.del_peer peer.peer_addr s).1.world ≡ rest

module _ {W : Type 0} (p : Platform W) (d : Driver W) (x : Roster d) where
  open x use {peers}

  peers-remove_peers :
      (fuel : ℕ) (ps : List Peer) (s : System W)
      → peers s.world ≡ ps
      → length ps < fuel
      → peers (remove_peers p d fuel s).1.world ≡ []
  unfolding remove_peers remove_found
  peers-remove_peers zero ps s e h = absurd (omega arith)
  peers-remove_peers (suc fuel) [] s e h = rw (x.fetch_head s ∙ ap head? e) (x.fetch_same s ∙ e)
  peers-remove_peers (suc fuel) (peer ∷ ps) s e h =
      let (_, t) = d.fetch_peer s in
      rw (x.fetch_head s ∙ ap head? e)
        (peers-remove_peers fuel ps _ (x.del_head peer ps t (x.fetch_same s ∙ e)) (omega arith))

  enough_fuel :
      (fuel fuel' : ℕ) (ps : List Peer) (s : System W)
      → peers s.world ≡ ps
      → length ps < fuel
      → length ps < fuel'
      → remove_peers p d fuel s ≡ remove_peers p d fuel' s
  unfolding remove_peers remove_found
  enough_fuel zero fuel' ps s e h k = absurd (omega arith)
  enough_fuel (suc fuel) zero ps s e h k = absurd (omega arith)
  enough_fuel (suc fuel) (suc fuel') [] s e h k = rw (x.fetch_head s ∙ ap head? e) refl
  enough_fuel (suc fuel) (suc fuel') (peer ∷ ps) s e h k =
      let (_, t) = d.fetch_peer s in
      rw (x.fetch_head s ∙ ap head? e) (
        enough_fuel fuel fuel' ps _ (x.del_head peer ps t (x.fetch_same s ∙ e)) (omega arith)
          (omega arith))

  -- The loop of radio_configure that removes the peers ends by its own test and leaves none, whatever
  -- peers there are, where the driver fetches the first of its peers and can remove it: with more fuel
  -- than there are peers none is left, and any more fuel gives the same run.
  remove_peers_ends :
      (fuel fuel' : ℕ) (s : System W)
      → length (peers s.world) < fuel
      → length (peers s.world) < fuel'
      → (peers (remove_peers p d fuel s).1.world ≡ [])
        × (remove_peers p d fuel s ≡ remove_peers p d fuel' s)
  remove_peers_ends fuel fuel' s h k =
      (peers-remove_peers fuel _ s refl h, enough_fuel fuel fuel' _ s refl h k)
