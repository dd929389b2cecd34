-- ===== src/Tests/Links.antt =====
-- Runs of the admission of links and connections, and the theorems applied to them.
use yunzes_node.Base.{
  ℕ, ◌≡◌, refl, true, false, some, [], ◌∷◌, lookup, insert, erase, nat_eq, string_eq, ok, err,
  strip_prefix, trim_prefix, subst, Returns, arith, ◌<>◌,
}
use yunzes_node.Format.{user_tag}
use yunzes_node.Counter.{new_traffic_counter, get_counter}
use yunzes_node.Limiter.Conn.{
  count_ips, conn_full, existing_ips, ip_full, bump_count, new_slot, store_ip_slot, as_int,
  touch_slot, next_ips, add_conn_count,
}
use yunzes_node.Limiter.Conn.Bounds.{IsBounded}
use yunzes_node.Limiter.Conn.Pairing.{SameView}
use yunzes_node.Limiter.Alive
use yunzes_node.Limiter.OldOnline
use yunzes_node.Limiter.Speed.{determine_speed_limit}
use yunzes_node.Limiter.State.{Limiter, UserLimitInfo}
use yunzes_node.Limiter.Check.{
  expired, user_limit_of, refresh, device_full, check_known_user, check_new_user, check_devices,
  byte_rate, take_bucket, finish, check_user, check_admitted, check_limit,
}
use yunzes_node.Core.Links.{
  Writer, Dispatcher, limited, Inbound, manager_for, release_for, new_writer, links_of, add_link,
  counter_for, count_for, manage, admit, get_link, close_writer,
}
use yunzes_node.Core.Links.Admitted.{get_link-close_writer}
use yunzes_node.Core.Links.Closing.{IsServed, RefusedCleanly, admit-RefusedCleanly}
use yunzes_node.Core.Hook.{
  Conn, HookServer, note_conn, count_conn, routed, routed_connection, clear_conn,
}
use yunzes_node.Core.Hook.Passing.{later_conns_untracked}

program : Unit {0}
unfolding lookup insert erase strip_prefix trim_prefix user_tag count_ips conn_full existing_ips
    ip_full bump_count new_slot store_ip_slot as_int touch_slot next_ips add_conn_count
    determine_speed_limit expired user_limit_of refresh device_full check_known_user check_new_user
    check_devices byte_rate take_bucket finish check_user check_admitted check_limit OldOnline.load
    Alive.get manager_for release_for new_writer links_of add_link counter_for count_for manage
    admit get_link new_traffic_counter get_counter note_conn count_conn routed routed_connection
program = tt

-- A bucket is its rate.
abbrev bucket : ℕ → ℕ
bucket rate = rate

abbrev limits : UserLimitInfo
limits = record {
  uid = 7;
  speed_limit = 0;
  device_limit = 0;
  dynamic_speed_limit = 0;
  expire_time = 0;
  over_limit = false;
}

abbrev idle : Limiter ℕ
idle = record {
  speed_limit = 0;
  user_online_ip = [];
  old_user_online = [];
  uuid_to_uid = [];
  user_limit_info = ("t|x", limits) ∷ [];
  conn_limiter = record { realtime = true; ip_limit = 0; conn_limit = 2; count = []; ip = [] };
  speed_limiter = [];
  alive_list = [];
}

abbrev busy : Limiter ℕ
busy = record idle {
  user_online_ip = ("t|x", ("1.1.1.1", 7) ∷ []) ∷ [];
  conn_limiter = record idle.conn_limiter { count = ("t|x", 1) ∷ [] };
}

idle-IsBounded : IsBounded 2 0 true idle.conn_limiter
idle-IsBounded = record {
  same_conn = refl;
  same_ip = refl;
  same_mode = refl;
  counts = tt;
  slots = tt;
}

abbrev quiet : Dispatcher ℕ
quiet = record {
  registry = ("t", 5) ∷ [];
  limiters = (5, idle) ∷ [];
  managers = [];
  links = [];
  writers = [];
  counters = [];
  next = 0;
}

abbrev inbound : Inbound
inbound = record { tag = "t"; user = "t|x"; address = "1.1.1.1"; source_tcp = true }

abbrev writer : Writer
writer = record {
  manager = 0;
  user = "t|x";
  address = "1.1.1.1";
  limiter = some 5;
  released = false;
  closed = 0;
}

abbrev linked : Dispatcher ℕ
linked = record {
  registry = ("t", 5) ∷ [];
  limiters = (5, busy) ∷ [];
  managers = ("t|x", 0) ∷ [];
  links = (0, 1 ∷ []) ∷ [];
  writers = (1, writer) ∷ [];
  counters = ("t", ("t|x", record { up = 0; down = 0 }) ∷ []) ∷ [];
  next = 2;
}

links_up : get_link bucket quiet inbound true 0 ≡ some (linked, ok (some 1))
unfolding program
links_up = refl

registered : lookup "t" quiet.registry ≡ some 5
unfolding program
registered = refl

limiter_there : lookup 5 quiet.limiters ≡ some idle
unfolding program
limiter_there = refl

plain : trim_prefix "1.1.1.1" "::ffff:" ≡ "1.1.1.1"
unfolding program
plain = refl

get_link-close_writer_example :
    Returns
      (λ d.
        (l : Limiter ℕ) × (lookup 5 d.limiters ≡ some l)
        × SameView l.conn_limiter idle.conn_limiter)
      (close_writer linked 1)
get_link-close_writer_example =
    get_link-close_writer bucket 2 0 quiet linked inbound 0 5 1 idle registered limiter_there
      idle-IsBounded plain links_up

served : IsServed bucket 2 0 true quiet inbound
unfolding program
served n h =
    let same : 5 ≡ n = ground (arith, h) in
    subst
      (λ k.
        (l : Limiter ℕ) × (lookup k quiet.limiters ≡ some l) × IsBounded 2 0 true l.conn_limiter)
      same (idle, limiter_there, idle-IsBounded)

-- A user without limits on record.
abbrev stranger : Inbound
stranger = record inbound { user = "t|z" }

refuses :
    admit bucket quiet stranger true true 0
    ≡ some (
      record quiet {
        limiters =
            (5, record idle { conn_limiter = record idle.conn_limiter { count = ("t|z", 1) ∷ [] } })
            ∷ [];
      },
      err (limited "t|z"),
    )
unfolding program
refuses = refl

admit-RefusedCleanly_example :
    Returns (RefusedCleanly quiet stranger) (admit bucket quiet stranger true true 0)
admit-RefusedCleanly_example =
    admit-RefusedCleanly bucket 2 0 true quiet stranger true true 0 served

abbrev hook : HookServer ℕ
hook = record {
  enable_conn_clear = true;
  registry = ("t", 5) ∷ [];
  limiters = (5, idle) ∷ [];
  counter = [];
  conn_clears = ("tx", (0, 1) ∷ []) ∷ [];
}

abbrev second_conn : Conn
second_conn = record {
  id = 2;
  limited = false;
  release = some (record { limiter = 5; user = "t|x"; address = "1.1.1.1" });
  counted = some ("t", "x");
  closed = false;
}

abbrev hooked : HookServer ℕ
hooked = record hook {
  limiters = (5, busy) ∷ [];
  counter = ("t", ("x", record { up = 0; down = 0 }) ∷ []) ∷ [];
}

routes : routed bucket hook true "t" "x" "1.1.1.1" 2 0 ≡ some (hooked, second_conn)
unfolding program
routes = refl

first_noted : lookup ("t" <> "x") hook.conn_clears ≡ some ((0, 1) ∷ [])
unfolding program
first_noted = refl

later_conns_untracked_example :
    (hooked.conn_clears ≡ hook.conn_clears)
    × ((clear_conn hooked "t" "x").1 ≡ (clear_conn hook "t" "x").1)
later_conns_untracked_example =
    later_conns_untracked bucket hook hooked true "t" "x" "1.1.1.1" 2 0 ((0, 1) ∷ []) second_conn
      first_noted routes
