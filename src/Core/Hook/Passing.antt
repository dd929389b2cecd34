-- ===== src/Core/Hook/Passing.antt =====
-- What the hook of core/sing does not do: a connection of an unknown inbound, a second connection of a
-- user, and the release of an address that is printed with the IPv4-mapping prefix.
use yunzes_node.Base.{
  ℕ, ◌≡◌, refl, inl, inr, String, Bool, true, false, none, some, lookup, insert, nat_eq, string_eq,
  arith, Option-cases, ◌<>◌,
}
use yunzes_node.Format.{user_tag}
use yunzes_node.Limiter.Check.{check_limit}
use yunzes_node.Core.Hook.{
  ConnClear, Conn, HookServer, bare, note_conn, count_conn, routed, routed_connection,
  routed_packet_connection, clear_conn,
}

module _ {B : Type 0} (new_bucket : ℕ → B) where
  -- Without a limiter for the inbound, a connection of any user passes as it is: no limit, no
  -- release, no counter, and the server as before.
  pub unknown_inbound_passes :
      (h : HookServer B) (inbound user address : String) (id now : ℕ)
      → lookup inbound h.registry ≡ none
      → (routed_connection new_bucket h inbound user address id now ≡ some (h, bare id))
        × (routed_packet_connection new_bucket h inbound user address id now ≡ some (h, bare id))
  unfolding routed_connection routed_packet_connection routed
  unknown_inbound_passes h inbound user address id now e =
      (rw (e, routed) refl, rw (e, routed) refl)

  count_conn-clears :
      (h : HookServer B) (inbound user : String)
      → (count_conn h inbound user).conn_clears ≡ h.conn_clears
  unfolding count_conn
  count_conn-clears h inbound user = ground arith

  known_user_noted :
      (h : HookServer B) (key : String) (id : ℕ) (c : ConnClear)
      → lookup key h.conn_clears ≡ some c
      → (note_conn h key id).conn_clears ≡ h.conn_clears
  unfolding note_conn
  known_user_noted h key id c e = ground (arith, e)

  routed-clears :
      (h h' : HookServer B) (tcp : Bool) (inbound user address : String) (id now : ℕ)
      (c : ConnClear) (conn : Conn)
      → lookup (inbound <> user) h.conn_clears ≡ some c
      → routed new_bucket h tcp inbound user address id now ≡ some (h', conn)
      → h'.conn_clears ≡ h.conn_clears
  unfolding routed
  routed-clears h h' tcp inbound user address id now c conn e r =
      elim (Option-cases (lookup inbound h.registry)) [
        | inl f ↦ ground (arith, f, r)
        | inr (n, f) ↦ elim (Option-cases (lookup n h.limiters)) [
          | inl g ↦ absurd (ground (arith, f, g, r))
          | inr (l, g) ↦
              elim (Option-cases
                (check_limit new_bucket l (user_tag inbound user) address tcp tcp now)) [
                  | inl k ↦ absurd (ground (arith, f, g, k, r))
                  | inr ((l', b, true), k) ↦ ground (arith, f, g, k, r)
                  | inr ((l', b, false), k) ↦
                      let h1 : HookServer B = record h { limiters = insert n l' h.limiters } in
                      let noted = note_conn h1 (inbound <> user) id in
                      ground (
                        arith,
                        f,
                        g,
                        k,
                        r,
                        count_conn-clears noted inbound user,
                        known_user_noted h1 (inbound <> user) id c e,
                      )
                ]
        ]
      ]

  -- Once a user has an entry among the connections to clear, no further connection of the user is
  -- entered, so that a clear closes none of the later ones.
  pub later_conns_untracked :
      (h h' : HookServer B) (tcp : Bool) (inbound user address : String) (id now : ℕ)
      (c : ConnClear) (conn : Conn)
      → lookup (inbound <> user) h.conn_clears ≡ some c
      → routed new_bucket h tcp inbound user address id now ≡ some (h', conn)
      → (h'.conn_clears ≡ h.conn_clears)
        × ((clear_conn h' inbound user).1 ≡ (clear_conn h inbound user).1)
  unfolding routed clear_conn
  later_conns_untracked h h' tcp inbound user address id now c conn e r =
      let same = routed-clears h h' tcp inbound user address id now c conn e r in
      (same, ground (arith, same, e))
