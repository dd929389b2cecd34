-- ===== src/Core/Hook.antt =====
-- The connection hook of core/sing: RoutedConnection and RoutedPacketConnection of hook.go, ConnClear,
-- and the release wrapper of conn_release.go. Limiters are objects, by number; a connection is its
-- wrappers. The rate limiter and the wrapped connections are not part of this program.
pub mod Passing
use yunzes_node.Base.{
  ℕ, String, Bool, true, false, Option, none, some, List, [], ◌∷◌, length, map, if◌then◌else◌, Map,
  lookup, insert, erase, nat_eq, string_eq, ◌>>=◌, ◌<>◌,
}
use yunzes_node.Format.{user_tag}
use yunzes_node.Counter.{TrafficCounter, new_traffic_counter, get_counter}
use yunzes_node.Limiter.Conn.{del_conn_count}
use yunzes_node.Limiter.State.{Limiter}
use yunzes_node.Limiter.Check.{check_limit}

-- The connections to close for one user, by key.
abbrev pub ConnClear : Type 0
ConnClear = Map ℕ ℕ

unfoldable pub add_conn : ConnClear → ℕ → ConnClear × ℕ
add_conn c conn = (insert (length c) conn c, length c)

unfoldable pub del_conn : ConnClear → ℕ → ConnClear
del_conn c key = erase key c

-- What a realtime limiter gets back at the first Close.
pub record Release : Type 0 where
  pub limiter : ℕ
  pub user : String
  pub address : String

-- A connection as it is handed on. `counted` is the storage that its bytes are counted in.
pub record Conn : Type 0 where
  pub id : ℕ
  pub limited : Bool
  pub release : Option Release
  pub counted : Option (String × String)
  pub closed : Bool

pub record HookServer (B : Type 0) : Type 0 where
  pub enable_conn_clear : Bool
  pub registry : Map String ℕ
  pub limiters : Map ℕ (Limiter B)
  pub counter : Map String TrafficCounter
  pub conn_clears : Map String ConnClear

abbrev pub bare : ℕ → Conn
bare id = record { id = id; limited = false; release = none; counted = none; closed = false }

module _ {B : Type 0} where
  -- `LoadOrStore` with a map of the new connection alone; what is loaded is not used.
  unfoldable pub note_conn : HookServer B → String → ℕ → HookServer B
  note_conn h key id =
      if h.enable_conn_clear
      then elim (lookup key h.conn_clears) [
        | some _ ↦ h
        | none ↦ record h { conn_clears = insert key ((0, id) ∷ []) h.conn_clears }
      ]
      else h

  -- The inbound's counter and the user's storage in it, each made on first use.
  unfoldable pub count_conn : HookServer B → String → String → HookServer B
  count_conn h inbound user = elim (lookup inbound h.counter) [
    | some c ↦ record h { counter = insert inbound (get_counter c user).0 h.counter }
    | none ↦ record h {
      counter = insert inbound (get_counter new_traffic_counter user).0 h.counter;
    }
  ]

  abbrev holds : Option B → Bool
  holds none = false
  holds (some b) = true

module _ {B : Type 0} (new_bucket : ℕ → B) where
  -- Both hooks: for TCP the connection is limited, and released in realtime mode.
  unfoldable pub routed :
      HookServer B → Bool → String → String → String → ℕ → ℕ → Option (HookServer B × Conn)
  routed h tcp inbound user address id now = elim (lookup inbound h.registry) [
    | none ↦ some (h, bare id)
    | some n ↦ do
      l ← lookup n h.limiters
      (l', bucket, reject) ← check_limit new_bucket l (user_tag inbound user) address tcp tcp now
      let h' : HookServer B = record h { limiters = insert n l' h.limiters }
      let due : Release = record { limiter = n; user = user_tag inbound user; address = address }
      let conn : Conn = record {
        id = id;
        limited = if tcp then holds bucket else false;
        release = if tcp then (if l'.conn_limiter.realtime then some due else none) else none;
        counted = some (inbound, user);
        closed = false;
      }
      some (
          if reject
          then (h', record (bare id) { closed = true })
          else (count_conn (note_conn h' (inbound <> user) id) inbound user, conn))
  ]

  unfoldable pub routed_connection :
      HookServer B → String → String → String → ℕ → ℕ → Option (HookServer B × Conn)
  routed_connection h inbound user address id now = routed h true inbound user address id now

  unfoldable pub routed_packet_connection :
      HookServer B → String → String → String → ℕ → ℕ → Option (HookServer B × Conn)
  routed_packet_connection h inbound user address id now =
      routed h false inbound user address id now

module _ {B : Type 0} where
  -- The release, once; then the connection underneath is closed.
  unfoldable pub close_conn : HookServer B → Conn → Option (HookServer B × Conn)
  close_conn h c = elim (c.release) [
    | none ↦ some (h, record c { closed = true })
    | some r ↦ do
      l ← lookup r.limiter h.limiters
      cl ← del_conn_count l.conn_limiter r.user r.address
      some (
        record h { limiters = insert r.limiter (record l { conn_limiter = cl }) h.limiters },
        record c { release = none; closed = true },
      )
  ]

  -- The connections that are closed, and the user's entry gone.
  unfoldable pub clear_conn : HookServer B → String → String → HookServer B × List ℕ
  clear_conn h inbound user = elim (lookup (inbound <> user) h.conn_clears) [
    | none ↦ (h, [])
    | some c ↦ (record h { conn_clears = erase (inbound <> user) h.conn_clears }, map (λ e. e.1) c)
  ]
