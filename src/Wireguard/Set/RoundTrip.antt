-- ===== src/Wireguard/Set/RoundTrip.antt =====
-- A device that wireguard/lua_wireguard.c has got from the kernel, set again.
use lilush.Common.{
  ℕ, suc, ◌+◌, ◌≡◌, refl, List, [], ◌∷◌, map, length, ok, custom_err, String, arith,
}
use lilush.Wireguard.Table.{Value, table, Fields, Numbers, lua_getfield, values}
use lilush.Wireguard.Device.{AllowedIp, unspecified, Peer, Wireguard, peer_blocks}
use lilush.Wireguard.Push.{push_allowedips, push_peer, push_peers}
use lilush.Wireguard.Parse.{
  Heap, Parsed, done, returned, and_then, as_table, malloc, lift, optional, allowedip_fields,
  parse_allowedips, peer_allowedips, peer_fields, parse_peer, parse_peers,
}
use lilush.Wireguard.Set.Reported.{IsLawful, IsKey, allowedip_fields-push}
use lilush.Wireguard.Set.Peers.{
  AreReported, none_left, one_more, IsReported, AreReportedPeers, no_peers, one_peer, as_set,
  peer_fields-push, peer_fields-unknown,
}

module _ (W : Wireguard) (N : Numbers) (L : IsLawful W N) where
  parse_allowedips-cons :
      {v : Value} {t : Fields} {a : AllowedIp} (rest : List Value) {more : List AllowedIp}
      {h : Heap} (n available left : ℕ)
      → v ≡ table t
      → allowedip_fields W N t ≡ ok a
      → available ≡ suc left
      → parse_allowedips W N rest (record { allocated = n + 1; available = left }) ≡ done more h
      → parse_allowedips W N (v ∷ rest) (record { allocated = n; available = available })
        ≡ done (a ∷ more) h
  unfolding parse_allowedips as_table malloc lift and_then
  parse_allowedips-cons rest n available left hv ht ha hr = rw (hv, ha, ht, hr) refl

  same_heap :
      {A : Type 0} {n m available left : ℕ}
      → n ≡ m
      → available ≡ left
      → ◌≡◌ {A = Parsed (List A)}
          (done [] (record { allocated = n; available = available }))
          (done [] (record { allocated = m; available = left }))
  same_heap e e' = rw (e, e') refl

  parse_allowedips-push :
      {ips : List AllowedIp} (i n available left total : ℕ)
      → AreReported ips
      → available ≡ length ips + left
      → total ≡ n + length ips
      → parse_allowedips W N
          (values (push_allowedips W N i ips))
          (record { allocated = n; available = available })
        ≡ done ips (record { allocated = total; available = left })
  unfolding parse_allowedips push_allowedips
  parse_allowedips-push i n available left total none_left ha ht =
      same_heap (omega arith) (omega arith)
  parse_allowedips-push i n available left total (one_more {rest} h more) ha ht =
      let (t, et, ef) = allowedip_fields-push W N L h in
      parse_allowedips-cons _ n available (length rest + left) et ef (omega arith) (
        parse_allowedips-push (i + 1) (n + 1) (length rest + left) left total more refl
          (omega arith))

  -- The blocks of a peer with its addresses.
  abbrev blocks : Peer → ℕ
  blocks p = 1 + length p.allowed_ips

  peer_allowedips-push :
      (p : Peer) (n available left total : ℕ)
      → AreReported p.allowed_ips
      → available ≡ length p.allowed_ips + left
      → total ≡ n + length p.allowed_ips
      → peer_allowedips W N
          (table (push_allowedips W N 1 p.allowed_ips))
          (record { allocated = n; available = available })
        ≡ done p.allowed_ips (record { allocated = total; available = left })
  unfolding peer_allowedips optional as_table
  peer_allowedips-push p n available left total h ha ht =
      parse_allowedips-push 1 n available left total h ha ht

  parse_peer-reads :
      {v w : Value} {t : Fields} {p : Peer} {ips : List AllowedIp} {h : Heap} (n available left : ℕ)
      → v ≡ table t
      → available ≡ suc left
      → peer_fields W N t ≡ ok p
      → lua_getfield t "allowed_ips" ≡ w
      → peer_allowedips W N w (record { allocated = n + 1; available = left }) ≡ done ips h
      → parse_peer W N v (record { allocated = n; available = available })
        ≡ done (record p { allowed_ips = ips }) h
  unfolding parse_peer as_table malloc lift and_then
  parse_peer-reads n available left ev ea ef ew ei = rw (ev, ea, ef, ew, ei) refl

  parse_peer-push :
      (p : Peer) (n available left total : ℕ)
      → IsReported p
      → available ≡ blocks p + left
      → total ≡ n + blocks p
      → parse_peer W N (push_peer W N p) (record { allocated = n; available = available })
        ≡ done (as_set W p) (record { allocated = total; available = left })
  parse_peer-push p n available left total h ea et =
      let (t, ev, (ef, ew)) = peer_fields-push W N L p h in
      parse_peer-reads n available (length p.allowed_ips + left) ev (omega arith) ef ew (
        peer_allowedips-push p (n + 1) (length p.allowed_ips + left) left total h.allowed refl
          (omega arith))

  parse_peers-cons :
      (v : Value) {p : Peer} (rest : List Value) {more : List Peer} {h h' : Heap} (h0 : Heap)
      → parse_peer W N v h0 ≡ done p h
      → parse_peers W N rest h ≡ done more h'
      → parse_peers W N (v ∷ rest) h0 ≡ done (p ∷ more) h'
  unfolding parse_peers and_then
  parse_peers-cons v rest h0 e er = rw (e, er) refl

  -- The table that the loop of lua_wg_get_device makes of peers whose endpoints are known, the loop of
  -- lua_wg_set_device reads back, if there is memory for their blocks: the same peers in their order,
  -- each with its flags, keys, counters and addresses, its endpoint without a scope, and with
  -- WGPEER_HAS_PERSISTENT_KEEPALIVE_INTERVAL set. It allocates exactly their blocks.
  pub parse_peers-push :
      {ps : List Peer} (i n available left total : ℕ)
      → AreReportedPeers ps
      → available ≡ peer_blocks ps + left
      → total ≡ n + peer_blocks ps
      → parse_peers W N
          (values (push_peers W N i ps))
          (record { allocated = n; available = available })
        ≡ done (map (as_set W) ps) (record { allocated = total; available = left })
  unfolding parse_peers push_peers
  parse_peers-push i n available left total no_peers ha ht = same_heap (omega arith) (omega arith)
  parse_peers-push i n available left total (one_peer p {rest} h more) ha ht =
      parse_peers-cons _ _ _
        (parse_peer-push p n available (peer_blocks rest + left) (n + blocks p) h (omega arith)
          refl)
        (parse_peers-push (i + 1) (n + blocks p) (peer_blocks rest + left) left total more refl
          (omega arith))

  parse_peer-fails :
      {v : Value} {t : Fields} {message : String} (n left : ℕ)
      → v ≡ table t
      → peer_fields W N t ≡ custom_err message
      → parse_peer W N v (record { allocated = n; available = suc left })
        ≡ returned (custom_err message) (record { allocated = n + 1; available = left })
  unfolding parse_peer as_table malloc lift and_then
  parse_peer-fails n left ev ef = rw (ev, ef) refl

  -- The table that push_peer makes of a peer without an endpoint ends lua_wg_set_device with an error
  -- where it reads that peer: the table has an endpoint, but no address in it. The peer's block stays
  -- allocated.
  pub parse_peer-unknown :
      (p : Peer) (n left : ℕ)
      → IsKey p.flags.has_public_key p.public_key
      → IsKey p.flags.has_preshared_key p.preshared_key
      → p.endpoint ≡ unspecified
      → parse_peer W N (push_peer W N p) (record { allocated = n; available = suc left })
        ≡ returned
            (custom_err "Endpoint IP is missing or invalid")
            (record { allocated = n + 1; available = left })
  parse_peer-unknown p n left hb hc e =
      let (t, ev, ef) = peer_fields-unknown W N L p hb hc e in parse_peer-fails n left ev ef
