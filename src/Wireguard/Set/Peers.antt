-- ===== src/Wireguard/Set/Peers.antt =====
-- One peer that wireguard/lua_wireguard.c has got from the kernel, read again, but its addresses.
use lilush.Common.{◌^◌, ◌≤◌, ◌<◌, ◌≡◌, refl, Bool, true, false, List, [], ◌∷◌, ok, custom_err}
use lilush.Wireguard.Table.{table, Fields, Numbers, lua_getfield}
use lilush.Wireguard.Device.{AllowedIp, unspecified, Peer, Wireguard}
use lilush.Wireguard.Push.{push_allowedips, push_endpoint, push_peer}
use lilush.Wireguard.Parse.{on_ok, optional, peer_fields, parse_endpoint}
use lilush.Wireguard.Set.Reported.{
  IsLawful, IsReportedIp, IsKnown, IsKey, without_scope, word16_exact, parse_endpoint-push,
  parse_key-push,
}

-- Every address is as the kernel reports it.
pub data AreReported : List AllowedIp → Type 0 where
  none_left : AreReported []
  one_more :
      {a : AllowedIp} {rest : List AllowedIp}
      → IsReportedIp a
      → AreReported rest
      → AreReported (a ∷ rest)

-- A peer as the kernel reports it, with an endpoint that is known.
pub record IsReported (p : Peer) : Type 0 where
  pub public : IsKey p.flags.has_public_key p.public_key
  pub preshared : IsKey p.flags.has_preshared_key p.preshared_key
  pub known : IsKnown p.endpoint
  pub handshake_sec : p.last_handshake_time_sec ≤ 2 ^ 53
  pub handshake_nsec : p.last_handshake_time_nsec ≤ 2 ^ 53
  pub received : p.rx_bytes ≤ 2 ^ 53
  pub transmitted : p.tx_bytes ≤ 2 ^ 53
  pub keepalive : p.persistent_keepalive_interval < 2 ^ 16
  pub allowed : AreReported p.allowed_ips

-- Every peer is.
pub data AreReportedPeers : List Peer → Type 0 where
  no_peers : AreReportedPeers []
  one_peer :
      (p : Peer) {rest : List Peer}
      → IsReported p
      → AreReportedPeers rest
      → AreReportedPeers (p ∷ rest)

-- The peer as it is set: the same but for the scope of its endpoint, with
-- WGPEER_HAS_PERSISTENT_KEEPALIVE_INTERVAL.
abbrev pub as_set : Wireguard → Peer → Peer
as_set W p = record p {
  flags = record p.flags { has_persistent_keepalive_interval = true };
  endpoint = without_scope W p.endpoint;
}

module _ (W : Wireguard) (N : Numbers) (L : IsLawful W N) where
  -- A table that a peer is read from, and the peer.
  abbrev ReadsAs : Fields → Peer → Type 0
  ReadsAs t p =
      (peer_fields W N t ≡ ok (record (as_set W p) { allowed_ips = [] }))
      × (lua_getfield t "allowed_ips" ≡ table (push_allowedips W N 1 p.allowed_ips))

  -- A peer with these two flags.
  abbrev peer_with : Bool → Bool → Peer → Peer
  peer_with b c p = record p {
    flags = record p.flags { has_public_key = b; has_preshared_key = c };
  }

  peer_with-push :
      (b c : Bool) (p : Peer)
      → IsReported (peer_with b c p)
      → (t : Fields) × (push_peer W N (peer_with b c p) ≡ table t) × ReadsAs t (peer_with b c p)
  unfolding push_peer peer_fields lua_getfield on_ok optional
  peer_with-push true true p h = (
    _,
    refl,
    (
      rw
          (
            parse_key-push W N L p.public_key "Invalid public key" h.public,
            parse_key-push W N L p.preshared_key "Invalid preshared key" h.preshared,
            parse_endpoint-push W N L p.endpoint h.known,
            L.double_exact _ h.handshake_sec,
            L.double_exact _ h.handshake_nsec,
            L.double_exact _ h.received,
            L.double_exact _ h.transmitted,
            word16_exact W N L _ h.keepalive,
          )
          refl,
      refl,
    ),
  )
  peer_with-push true false p h = (
    _,
    refl,
    (
      rw
          (
            parse_key-push W N L p.public_key "Invalid public key" h.public,
            h.preshared,
            parse_endpoint-push W N L p.endpoint h.known,
            L.double_exact _ h.handshake_sec,
            L.double_exact _ h.handshake_nsec,
            L.double_exact _ h.received,
            L.double_exact _ h.transmitted,
            word16_exact W N L _ h.keepalive,
          )
          refl,
      refl,
    ),
  )
  peer_with-push false true p h = (
    _,
    refl,
    (
      rw
          (
            h.public,
            parse_key-push W N L p.preshared_key "Invalid preshared key" h.preshared,
            parse_endpoint-push W N L p.endpoint h.known,
            L.double_exact _ h.handshake_sec,
            L.double_exact _ h.handshake_nsec,
            L.double_exact _ h.received,
            L.double_exact _ h.transmitted,
            word16_exact W N L _ h.keepalive,
          )
          refl,
      refl,
    ),
  )
  peer_with-push false false p h = (
    _,
    refl,
    (
      rw
          (
            h.public,
            h.preshared,
            parse_endpoint-push W N L p.endpoint h.known,
            L.double_exact _ h.handshake_sec,
            L.double_exact _ h.handshake_nsec,
            L.double_exact _ h.received,
            L.double_exact _ h.transmitted,
            word16_exact W N L _ h.keepalive,
          )
          refl,
      refl,
    ),
  )

  pub peer_fields-push :
      (p : Peer) → IsReported p → (t : Fields) × (push_peer W N p ≡ table t) × ReadsAs t p
  peer_fields-push p h = peer_with-push p.flags.has_public_key p.flags.has_preshared_key p h

  -- A peer without an endpoint.
  peer_with-unknown :
      (b c : Bool) (p : Peer)
      → IsKey b p.public_key
      → IsKey c p.preshared_key
      → p.endpoint ≡ unspecified
      → (t : Fields) × (push_peer W N (peer_with b c p) ≡ table t)
        × (peer_fields W N t ≡ custom_err "Endpoint IP is missing or invalid")
  unfolding push_peer peer_fields lua_getfield on_ok optional parse_endpoint push_endpoint
  peer_with-unknown true true p hb hc e = (
    _,
    refl,
    rw
        (
          parse_key-push W N L p.public_key "Invalid public key" hb,
          parse_key-push W N L p.preshared_key "Invalid preshared key" hc,
          e,
        )
        refl,
  )
  peer_with-unknown true false p hb hc e =
      (_, refl, rw (parse_key-push W N L p.public_key "Invalid public key" hb, e) refl)
  peer_with-unknown false true p hb hc e =
      (_, refl, rw (parse_key-push W N L p.preshared_key "Invalid preshared key" hc, e) refl)
  peer_with-unknown false false p hb hc e = (_, refl, rw (e) refl)

  pub peer_fields-unknown :
      (p : Peer)
      → IsKey p.flags.has_public_key p.public_key
      → IsKey p.flags.has_preshared_key p.preshared_key
      → p.endpoint ≡ unspecified
      → (t : Fields) × (push_peer W N p ≡ table t)
        × (peer_fields W N t ≡ custom_err "Endpoint IP is missing or invalid")
  peer_fields-unknown p hb hc e =
      peer_with-unknown p.flags.has_public_key p.flags.has_preshared_key p hb hc e
