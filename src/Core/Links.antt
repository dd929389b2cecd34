-- ===== src/Core/Links.antt =====
-- The admission of a link by the dispatcher of core/xray/app/dispatcher (getLink, and the same part of
-- DispatchLink), and the managed writers of linkmanager.go. Limiters, managers and writers are objects,
-- by number, since a writer keeps those that it was made with. The pipes, the sniffing, the routing and
-- the bytes are not modelled.
pub mod Admitted
pub mod Closing
use yunzes_node.Base.{
  ℕ, ◌+◌, String, Bool, true, false, not, ◌&&◌, Option, none, some, List, [], ◌∷◌, filter, ◌==◌,
  if◌then◌else◌, Map, lookup, insert, erase, nat_eq, string_eq, Result, ok, err, ◌>>=◌,
}
use yunzes_node.Counter.{TrafficCounter, new_traffic_counter, get_counter}
use yunzes_node.Limiter.Conn.{del_conn_count}
use yunzes_node.Limiter.State.{Limiter}
use yunzes_node.Limiter.Check.{check_limit}

-- ManagedWriter: `limiter` is there if a release is due at the first Close, and `released` once it is
-- done. `closed` counts the closes of the writer underneath.
pub record Writer : Type 0 where
  pub manager : ℕ
  pub user : String
  pub address : String
  pub limiter : Option ℕ
  pub released : Bool
  pub closed : ℕ

pub record Dispatcher (B : Type 0) : Type 0 where
  pub registry : Map String ℕ
  pub limiters : Map ℕ (Limiter B)
  pub managers : Map String ℕ
  pub links : Map ℕ (List ℕ)
  pub writers : Map ℕ Writer
  pub counters : Map String TrafficCounter
  pub next : ℕ

pub data LinkError : Type 0 where
  no_limiter : String → LinkError
  limited : String → LinkError

pub record Inbound : Type 0 where
  pub tag : String
  pub user : String
  pub address : String
  pub source_tcp : Bool

unfoldable pub counter_for : Map String TrafficCounter → String → TrafficCounter
counter_for m tag = elim (lookup tag m) [ some c ↦ c | none ↦ new_traffic_counter ]

module _ {B : Type 0} where
  -- The manager of a user, made on first use.
  unfoldable pub manager_for : Dispatcher B → String → Dispatcher B × ℕ
  manager_for d user = elim (lookup user d.managers) [
    | some m ↦ (d, m)
    | none ↦ (
      record d {
        managers = insert user d.next d.managers;
        links = insert d.next [] d.links;
        next = d.next + 1;
      },
      d.next,
    )
  ]

  unfoldable pub release_for : Limiter B → ℕ → Bool → Option ℕ
  release_for l i is_tcp = if is_tcp && l.conn_limiter.realtime then some i else none

  unfoldable pub new_writer : Dispatcher B → Writer → Dispatcher B × ℕ
  new_writer d w = (record d { writers = insert d.next w d.writers; next = d.next + 1 }, d.next)

  unfoldable pub links_of : Dispatcher B → ℕ → List ℕ
  links_of d m = elim (lookup m d.links) [ none ↦ [] | some ws ↦ ws ]

  unfoldable pub add_link : Dispatcher B → ℕ → ℕ → Dispatcher B
  add_link d m w = record d { links = insert m (w ∷ links_of d m) d.links }

  -- The tag's counter and the user's storage in it, each made on first use.
  unfoldable pub count_for : Dispatcher B → Inbound → Dispatcher B
  count_for d i = record d {
    counters = insert i.tag (get_counter (counter_for d.counters i.tag) i.user).0 d.counters;
  }

  -- Behind CheckLimit, for an admitted user: `listed` for a link that is added to its manager.
  unfoldable pub manage : Dispatcher B → Limiter B → ℕ → Inbound → Bool → Bool → Dispatcher B × ℕ
  manage d l n i is_tcp listed =
      let (d1, m) = manager_for d i.user in
      let (d2, w) = new_writer d1 (record {
        manager = m;
        user = i.user;
        address = i.address;
        limiter = release_for l n is_tcp;
        released = false;
        closed = 0;
      }) in
      let d3 = if listed then add_link d2 m w else d2 in (count_for d3 i, w)

module _ {B : Type 0} (new_bucket : ℕ → B) where
  -- `none` is a panic. A link has no writer of its own if the user has no email.
  unfoldable pub admit :
      Dispatcher B → Inbound → Bool → Bool → ℕ → Option (Dispatcher B × Result LinkError (Option ℕ))
  admit d i is_tcp listed now =
      if i.user == "" then some (d, ok none) else elim (lookup i.tag d.registry) [
        | none ↦ some (d, err (no_limiter i.tag))
        | some n ↦ do
          l ← lookup n d.limiters
          (l', bucket, reject) ← check_limit new_bucket l i.user i.address is_tcp i.source_tcp now
          let d' : Dispatcher B = record d { limiters = insert n l' d.limiters }
          let (d'', w) = manage d' l' n i is_tcp listed
          some (if reject then (d', err (limited i.user)) else (d'', ok (some w)))
      ]

  unfoldable pub get_link :
      Dispatcher B → Inbound → Bool → ℕ → Option (Dispatcher B × Result LinkError (Option ℕ))
  get_link d i is_tcp now = admit d i is_tcp true now

  -- Its writer is not added to the manager.
  unfoldable pub dispatch_link :
      Dispatcher B → Inbound → Bool → ℕ → Option (Dispatcher B × Result LinkError (Option ℕ))
  dispatch_link d i is_tcp now = admit d i is_tcp false now

module _ {B : Type 0} where
  unfoldable pub remove_writer : Dispatcher B → ℕ → ℕ → Dispatcher B
  remove_writer d m w = record d {
    links = insert m (filter (λ v. not (v == w)) (links_of d m)) d.links;
  }

  -- The release of the slots in the limiter that the link was admitted by.
  unfoldable pub release_slots : Dispatcher B → Writer → Option (Dispatcher B)
  release_slots d w = elim (w.limiter) [
    | none ↦ some d
    | some n ↦ if w.released then some d else do
      l ← lookup n d.limiters
      c ← del_conn_count l.conn_limiter w.user w.address
      some (record d { limiters = insert n (record l { conn_limiter = c }) d.limiters })
  ]

  unfoldable pub close_writer : Dispatcher B → ℕ → Option (Dispatcher B)
  close_writer d id = do
    w ← lookup id d.writers
    d' ← release_slots (remove_writer d w.manager id) w
    some (record d' {
      writers = insert id (record w { released = true; closed = w.closed + 1 }) d'.writers;
    })

  unfoldable pub close_each : Dispatcher B → List ℕ → Option (Dispatcher B)
  close_each d [] = some d
  close_each d (w ∷ ws) = do d' ← close_writer d w; close_each d' ws

  -- The order of the map is not fixed; here it is the latest link first.
  unfoldable pub close_all : Dispatcher B → ℕ → Option (Dispatcher B)
  close_all d m = close_each d (links_of d m)

  -- What DelUsers does about the links of one user.
  unfoldable pub drop_links : Dispatcher B → String → Option (Dispatcher B)
  drop_links d user = elim (lookup user d.managers) [
    | none ↦ some d
    | some m ↦ do d' ← close_all d m; some (record d' { managers = erase user d'.managers })
  ]
