-- ===== src/Tests/Limiting.antt =====
-- Runs of the limiter package, and its theorems applied to them.
use yunzes_node.Base.{
  ℕ, ◌+◌, ◌≤◌, ◌≡◌, refl, ◌≢◌, ◌↔◌, ◌⊎◌, true, false, Option, none, some, List, [], ◌∷◌, Returns,
  Values, trim_prefix, strip_prefix, lookup, insert, erase, fill, if◌then◌else◌, ltb, arith,
  Distinct, ◌==◌, string_eq,
}
use yunzes_node.Base.Int.{pos}
use yunzes_node.Format.{user_tag, runtime_key}
use yunzes_node.Panel.{UserInfo}
use yunzes_node.Conf.{LimitConfig}
use yunzes_node.Limiter.Conn.{
  ConnLimiter, online, stamp, new_conn_limiter, count_ips, conn_full, existing_ips, ip_full,
  bump_count, new_slot, store_ip_slot, as_int, touch_slot, next_ips, add_conn_count, drop_count,
  release_slot, put_or_reap, drop_ip, del_conn_count, survives, sweep_slots, sweep, clear_online_ip,
}
use yunzes_node.Limiter.Conn.Admission.{
  AtConnLimit, AtIpLimit, add_conn_count-rejects_iff, add_conn_count_rejected,
}
use yunzes_node.Limiter.Conn.Bounds.{IsBounded}
use yunzes_node.Limiter.Conn.Bounds.Runs.{Call, add, del, clear, run, run-new-IsBounded}
use yunzes_node.Limiter.Conn.Pairing.{SameView, slot_at, add_conn_count-del_conn_count}
use yunzes_node.Limiter.Conn.Sweep.{Lasting, clear_online_ip-Lasting, clear_online_ip-keeps}
use yunzes_node.Limiter.Alive
use yunzes_node.Limiter.OldOnline
use yunzes_node.Limiter.OldOnline.{load-gc_stale}
use yunzes_node.Limiter.Speed.{determine_speed_limit, determine_speed_limit_lem}
use yunzes_node.Limiter.State.{Limiter, UserLimitInfo, update_user, update_dynamic_speed_limit}
use yunzes_node.Limiter.Check.{
  expired, user_limit_of, refresh, device_full, check_known_user, check_new_user, check_devices,
  byte_rate, Verdict, take_bucket, finish, check_user, check_admitted, check_limit,
}
use yunzes_node.Limiter.Check.Verdict.{Refused, check_limit_iff}
use yunzes_node.Limiter.Check.Effects.{count_of, check_limit-IsBounded, check_limit_rejected-counts}
use yunzes_node.Limiter.Check.Limits.{
  bucket_for, expired_then_rejected, check_limit-bucket_for, dynamic_limit_ignored,
}
use yunzes_node.Limiter.Users.{latest, listed, sent_limits, update_user_lem}
use yunzes_node.Limiter.Registry.{
  Registry, add_limiter, get_limiter_by_runtime_key, delete_limiter, clear_limiter,
  clear_online_ips, get_limiter-add_limiter, lookup-clear_online_ips,
}

program : Unit {0}
unfolding lookup insert erase fill strip_prefix trim_prefix user_tag runtime_key count_ips conn_full
    existing_ips ip_full bump_count new_slot store_ip_slot as_int touch_slot next_ips add_conn_count
    drop_count release_slot put_or_reap drop_ip del_conn_count survives sweep_slots sweep
    clear_online_ip determine_speed_limit update_dynamic_speed_limit expired user_limit_of refresh
    device_full check_known_user check_new_user check_devices byte_rate take_bucket finish
    check_user check_admitted check_limit new_conn_limiter OldOnline.load Alive.get
program = tt

-- One user with one of two connections, from one of two IPs.
abbrev one_online : ConnLimiter
one_online = record {
  realtime = true;
  ip_limit = 2;
  conn_limit = 2;
  count = ("u", 1) ∷ [];
  ip = ("u", ("1.1.1.1", online 2) ∷ []) ∷ [];
}

abbrev two_online : ConnLimiter
two_online = record one_online {
  count = ("u", 2) ∷ [];
  ip = ("u", ("1.1.1.1", online 2) ∷ ("2.2.2.2", online 2) ∷ []) ∷ [];
}

one_online-IsBounded : IsBounded 2 2 true one_online
one_online-IsBounded = record {
  same_conn = refl;
  same_ip = refl;
  same_mode = refl;
  counts = ((omega arith, omega arith), tt);
  slots = (((omega arith, tt), omega arith), tt);
}

admits : add_conn_count one_online "u" "2.2.2.2" true 5 ≡ some (two_online, false)
unfolding program
admits = refl

rejects : add_conn_count two_online "u" "3.3.3.3" true 5 ≡ some (two_online, true)
unfolding program
rejects = refl

releases : del_conn_count two_online "u" "2.2.2.2" ≡ some one_online
unfolding program
releases = refl

add_conn_count-rejects_iff_example :
    (true ≡ true) ↔ (AtConnLimit two_online "u" ⊎ AtIpLimit two_online "u" "3.3.3.3")
add_conn_count-rejects_iff_example =
    add_conn_count-rejects_iff two_online two_online "u" "3.3.3.3" true true 5 rejects

add_conn_count_rejected_example : two_online ≡ two_online
add_conn_count_rejected_example =
    add_conn_count_rejected two_online two_online "u" "3.3.3.3" true 5 rejects

abbrev calls : List Call
calls =
    add "u" "1.1.1.1" true 1
    ∷ add "u" "2.2.2.2" false 2
    ∷ add "u" "1.1.1.1" true 3
    ∷ del "u" "1.1.1.1"
    ∷ clear 9
    ∷ add "v" "1.1.1.1" true 10
    ∷ []

run-new-IsBounded_example : Returns (IsBounded 2 2 true) (run (new_conn_limiter 2 2 true) calls)
run-new-IsBounded_example = run-new-IsBounded 2 2 true calls

add_conn_count-del_conn_count_example :
    Returns (λ d. SameView d one_online) (del_conn_count two_online "u" "2.2.2.2")
add_conn_count-del_conn_count_example =
    add_conn_count-del_conn_count 2 2 one_online two_online "u" "2.2.2.2" 5 one_online-IsBounded
      admits

abbrev by_time : ConnLimiter
by_time = record {
  realtime = false;
  ip_limit = 2;
  conn_limit = 0;
  count = [];
  ip = ("u", ("1.1.1.1", stamp 99999) ∷ ("2.2.2.2", stamp 60000100001) ∷ []) ∷ [];
}

fresh_is_evicted :
    clear_online_ip 100000 by_time
    ≡ record by_time { ip = ("u", ("2.2.2.2", stamp 60000100001) ∷ []) ∷ [] }
unfolding program
fresh_is_evicted = refl

clear_online_ip-Lasting_example :
    Values (Values (Lasting 100000)) (clear_online_ip 100000 by_time).ip
clear_online_ip-Lasting_example = clear_online_ip-Lasting 100000 by_time

later_survives : survives 100000 (stamp 60000100001) ≡ true
unfolding program
later_survives = refl

at_later : slot_at by_time.ip "u" "2.2.2.2" ≡ some (stamp 60000100001)
unfolding program
at_later = refl

clear_online_ip-keeps_example :
    slot_at (clear_online_ip 100000 by_time).ip "u" "2.2.2.2" ≡ some (stamp 60000100001)
clear_online_ip-keeps_example =
    clear_online_ip-keeps 100000 by_time "u" "2.2.2.2" (stamp 60000100001) at_later later_survives

-- A bucket is its rate.
abbrev bucket : ℕ → ℕ
bucket rate = rate

abbrev limits : UserLimitInfo
limits = record {
  uid = 7;
  speed_limit = 8;
  device_limit = 1;
  dynamic_speed_limit = 0;
  expire_time = 0;
  over_limit = false;
}

abbrev idle : Limiter ℕ
idle = record {
  speed_limit = 0;
  user_online_ip = [];
  old_user_online = [];
  uuid_to_uid = ("x", 7) ∷ [];
  user_limit_info = ("t|x", limits) ∷ [];
  conn_limiter = record { realtime = true; ip_limit = 0; conn_limit = 2; count = []; ip = [] };
  speed_limiter = [];
  alive_list = [];
}

abbrev busy : Limiter ℕ
busy = record idle {
  user_online_ip = ("t|x", ("1.1.1.1", 7) ∷ []) ∷ [];
  conn_limiter = record idle.conn_limiter { count = ("t|x", 1) ∷ [] };
  speed_limiter = ("t|x", 1000000) ∷ [];
}

checks :
    check_limit bucket idle "t|x" "::ffff:1.1.1.1" true true 0 ≡ some (busy, some 1000000, false)
unfolding program
checks = refl

check_limit_iff_example : (false ≡ true) ↔ (
    (AtConnLimit idle.conn_limiter "t|x"
      ⊎ AtIpLimit idle.conn_limiter "t|x" (trim_prefix "::ffff:1.1.1.1" "::ffff:"))
    ⊎ Refused bucket idle "t|x" (trim_prefix "::ffff:1.1.1.1" "::ffff:") true)
check_limit_iff_example =
    check_limit_iff bucket idle busy "t|x" "::ffff:1.1.1.1" true true false 0 (some 1000000) checks

idle-IsBounded : IsBounded 2 0 true idle.conn_limiter
idle-IsBounded = record {
  same_conn = refl;
  same_ip = refl;
  same_mode = refl;
  counts = tt;
  slots = tt;
}

check_limit-IsBounded_example :
    Returns
      (λ (v : Verdict ℕ). IsBounded 2 0 true v.0.conn_limiter)
      (check_limit bucket idle "t|x" "1.1.1.1" true true 0)
check_limit-IsBounded_example =
    check_limit-IsBounded bucket 2 0 true idle "t|x" "1.1.1.1" true true 0 idle-IsBounded

-- A user without limits on record is rejected, and counted.
abbrev counted : ConnLimiter
counted = record idle.conn_limiter { count = ("t|y", 1) ∷ [] }

counts_first :
    add_conn_count idle.conn_limiter "t|y" (trim_prefix "1.1.1.1" "::ffff:") true 0
    ≡ some (counted, false)
unfolding program
counts_first = refl

then_rejects :
    check_limit bucket idle "t|y" "1.1.1.1" true true 0
    ≡ some (record idle { conn_limiter = counted }, none, true)
unfolding program
then_rejects = refl

check_limit_rejected-counts_example : count_of counted "t|y" ≡ count_of idle.conn_limiter "t|y" + 1
check_limit_rejected-counts_example =
    check_limit_rejected-counts bucket idle (record idle { conn_limiter = counted }) counted "t|y"
      "1.1.1.1" true 0 none (omega arith) counts_first then_rejects

limits_on_record : lookup "t|x" idle.user_limit_info ≡ some limits
unfolding program
limits_on_record = refl

check_limit-bucket_for_example :
    some 1000000
    ≡ bucket_for bucket
        (lookup "t|x" idle.speed_limiter)
        (byte_rate idle.speed_limit (user_limit_of limits 0))
check_limit-bucket_for_example =
    check_limit-bucket_for bucket idle busy "t|x" "::ffff:1.1.1.1" true true 0 (some 1000000) limits
      checks limits_on_record

-- A dynamic limit that has run out on a user with no other speed limit.
abbrev lapsed : UserLimitInfo
lapsed = record limits { speed_limit = 0; dynamic_speed_limit = 3; expire_time = 1 }

abbrev lapsing : Limiter ℕ
lapsing = record idle { user_limit_info = ("t|x", lapsed) ∷ [] }

abbrev forgotten : Limiter ℕ
forgotten = record busy { user_limit_info = []; speed_limiter = [] }

abbrev locked_out : Limiter ℕ
locked_out = record forgotten {
  conn_limiter = record idle.conn_limiter { count = ("t|x", 2) ∷ [] };
}

on_record : lookup "t|x" lapsing.user_limit_info ≡ some lapsed
unfolding program
on_record = refl

has_lapsed : expired lapsed 2000000000 ≡ true
unfolding program
has_lapsed = refl

admitted_once :
    check_limit bucket lapsing "t|x" "1.1.1.1" true true 2000000000 ≡ some (forgotten, none, false)
unfolding program
admitted_once = refl

rejected_later :
    check_limit bucket forgotten "t|x" "1.1.1.1" true true 3000000000
    ≡ some (locked_out, none, true)
unfolding program
rejected_later = refl

expired_then_rejected_example : true ≡ true
expired_then_rejected_example =
    expired_then_rejected bucket lapsing forgotten locked_out "t|x" "1.1.1.1" "1.1.1.1" true true
      true true true 2000000000 3000000000 none none lapsed on_record has_lapsed refl admitted_once
      rejected_later

-- A dynamic limit on a user who has a bucket.
abbrev limited : Limiter ℕ
limited = record busy {
  user_limit_info = ("t|x", record limits { dynamic_speed_limit = 1; expire_time = 60 }) ∷ [];
}

abbrev limited_twice : Limiter ℕ
limited_twice = record limited {
  conn_limiter = record idle.conn_limiter { count = ("t|x", 2) ∷ [] };
}

has_bucket : lookup (user_tag "t" "x") busy.speed_limiter ≡ some 1000000
unfolding program
has_bucket = refl

is_limited : update_dynamic_speed_limit busy "t" "x" 1 60 ≡ some limited
unfolding program
is_limited = refl

as_before :
    check_limit bucket limited (user_tag "t" "x") "1.1.1.1" true true 0
    ≡ some (limited_twice, some 1000000, false)
unfolding program
as_before = refl

dynamic_limit_ignored_example :
    ◌≡◌ {A = Option ℕ} (some 1000000) (some 1000000) ⊎ ◌≡◌ {A = Option ℕ} (some 1000000) none
dynamic_limit_ignored_example =
    dynamic_limit_ignored bucket busy limited limited_twice "t" "x" "1.1.1.1" 1 60 0 true true
      (some 1000000) 1000000 has_bucket is_limited as_before

abbrev user_x : UserInfo
user_x = record { id = 7; uuid = "x"; speed_limit = 9; device_limit = 0 }

update_user_lem_example :
    (lookup (user_tag "t" "x") (update_user busy "t" (user_x ∷ []) (user_x ∷ [])).user_limit_info
      ≡ elim (latest "x" (user_x ∷ [])) [
        | some u ↦ some (sent_limits u)
        | none ↦
            if listed "x" (user_x ∷ [])
            then none
            else lookup (user_tag "t" "x") busy.user_limit_info
      ])
    × (lookup (user_tag "t" "x") (update_user busy "t" (user_x ∷ []) (user_x ∷ [])).speed_limiter
        ≡ (if listed "x" (user_x ∷ []) then none else lookup (user_tag "t" "x") busy.speed_limiter))
update_user_lem_example = update_user_lem "t" "x" busy (user_x ∷ []) (user_x ∷ [])

abbrev one_limiter : Registry ℕ
one_limiter = ("xray|t", busy) ∷ []

lookup-clear_online_ips_example :
    lookup "xray|t" (clear_online_ips 100000 one_limiter).0
    ≡ elim (lookup "xray|t" one_limiter) [ none ↦ none | some l ↦ some (clear_limiter 100000 l).0 ]
lookup-clear_online_ips_example = lookup-clear_online_ips 100000 one_limiter "xray|t"

determine_speed_limit_lem_example :
    let a : ℕ = 3 in
    let b : ℕ = 5 in
    let r = determine_speed_limit a b in
    ((r ≡ a) ⊎ (r ≡ b)) × (r ≡ 0 → (a ≡ 0) × (b ≡ 0)) × (a ≢ 0 → r ≤ a) × (b ≢ 0 → r ≤ b)
determine_speed_limit_lem_example = determine_speed_limit_lem 3 5

abbrev no_limits : LimitConfig
no_limits = record {
  enable_realtime = true;
  speed_limit = 0;
  ip_limit = 0;
  conn_limit = 0;
  enable_dynamic_speed_limit = false;
  dynamic_speed_limit_config = none;
  max_report_failure_rollbacks = pos 0;
}

get_limiter-add_limiter_example :
    let (r', info) = add_limiter one_limiter "sing" "t" no_limits (user_x ∷ []) [] in
    (get_limiter_by_runtime_key r' "xray|t" ≡ (
      if runtime_key "sing" "t" == "xray|t"
      then some info
      else get_limiter_by_runtime_key one_limiter "xray|t"))
    × (get_limiter_by_runtime_key (delete_limiter r' "sing" "t") "xray|t" ≡ (
        if runtime_key "sing" "t" == "xray|t"
        then none
        else get_limiter_by_runtime_key one_limiter "xray|t"))
get_limiter-add_limiter_example =
    get_limiter-add_limiter one_limiter "sing" "t" "xray|t" no_limits (user_x ∷ []) []

abbrev recent : OldOnline.OldUserOnlineStore
recent =
    ("1.1.1.1", record { uid = 7; inserted_at = 100 })
    ∷ ("2.2.2.2", record { uid = 8; inserted_at = 50 })
    ∷ []

recent-Distinct : Distinct recent
unfolding program
recent-Distinct = (refl, (refl, tt))

load-gc_stale_example :
    OldOnline.load (OldOnline.gc_stale 120 30 recent).0 "2.2.2.2" ≡ elim (lookup "2.2.2.2" recent) [
      | none ↦ none
      | some e ↦ if ltb (e.inserted_at + 30) 120 then none else some e.uid
    ]
load-gc_stale_example = load-gc_stale 120 30 recent "2.2.2.2" recent-Distinct refl
