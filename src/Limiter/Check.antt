-- ===== src/Limiter/Check.antt =====
-- CheckLimit of limiter/limiter.go, the admission of one connection on the data path.
pub mod Verdict
pub mod Effects
pub mod Limits
use yunzes_node.Base.{
  ℕ, ◌*◌, ◌/◌, String, Bool, true, false, not, ◌&&◌, Option, none, some, [], ◌∷◌, ltb, leb, ◌==◌,
  if◌then◌else◌, Map, lookup, insert, erase, ◌>>=◌, nat_eq, string_eq, trim_prefix,
}
use yunzes_node.Limiter.Conn.{add_conn_count}
use yunzes_node.Limiter.Alive
use yunzes_node.Limiter.OldOnline
use yunzes_node.Limiter.OldOnline.{OldUserOnlineStore}
use yunzes_node.Limiter.Speed.{determine_speed_limit}
use yunzes_node.Limiter.State.{Limiter, UserLimitInfo}

-- `time.Now().Unix()` of a time in nanoseconds.
abbrev pub unix : ℕ → ℕ
unix now = now / 1000000000

-- A dynamic limit that is set and has run out.
unfoldable pub expired : UserLimitInfo → ℕ → Bool
expired u now = ltb u.expire_time (unix now) && not (u.expire_time == 0)

unfoldable pub user_limit_of : UserLimitInfo → ℕ → ℕ
user_limit_of u now =
    if expired u now
    then (if not (u.speed_limit == 0) then u.speed_limit else 0)
    else determine_speed_limit u.speed_limit u.dynamic_speed_limit

-- The user's entry afterwards: an expired one is reset, or removed if it has no speed limit.
unfoldable pub refresh :
    Map String UserLimitInfo → String → UserLimitInfo → ℕ → Map String UserLimitInfo
refresh m taguuid u now =
    if expired u now
    then (if not (u.speed_limit == 0)
        then insert taguuid (record u { dynamic_speed_limit = 0; expire_time = 0 }) m
        else erase taguuid m)
    else m

unfoldable pub device_full : ℕ → ℕ → Bool
device_full device_limit alive = ltb 0 device_limit && leb device_limit alive

-- The device check: the online map, the recent users, and whether to reject.
abbrev pub Devices : Type 0
Devices = Map String (Map String ℕ) × OldUserOnlineStore × Bool

unfoldable pub check_known_user :
    Map String (Map String ℕ)
    → OldUserOnlineStore
    → String
    → String
    → ℕ
    → ℕ
    → ℕ
    → Map String ℕ
    → Devices
check_known_user online old taguuid ip uid device_limit alive ips = elim (lookup ip ips) [
  | some _ ↦ (online, old, false)
  | none ↦
      if device_full device_limit alive
      then (insert taguuid (erase ip (insert ip uid ips)) online, old, true)
      else (insert taguuid (insert ip uid ips) online, old, false)
]

unfoldable pub check_new_user :
    Map String (Map String ℕ) → OldUserOnlineStore → String → String → ℕ → ℕ → ℕ → Devices
check_new_user online old taguuid ip uid device_limit alive =
    let online' = insert taguuid ((ip, uid) ∷ []) online in
    elim (OldOnline.load old ip) [
      | some stored ↦ (online', if stored == uid then OldOnline.delete old ip else old, false)
      | none ↦
          if device_full device_limit alive
          then (erase taguuid online', old, true)
          else (online', old, false)
    ]

unfoldable pub check_devices :
    Map String (Map String ℕ) → OldUserOnlineStore → String → String → ℕ → ℕ → ℕ → Devices
check_devices online old taguuid ip uid device_limit alive = elim (lookup taguuid online) [
  | some ips ↦ check_known_user online old taguuid ip uid device_limit alive ips
  | none ↦ check_new_user online old taguuid ip uid device_limit alive
]

-- Bytes per second of a limit in Mbit/s.
unfoldable pub byte_rate : ℕ → ℕ → ℕ
byte_rate node_limit user_limit = determine_speed_limit node_limit user_limit * 1000000 / 8

-- The limiter afterwards, the bucket of an admitted connection, and `true` for a rejected one.
abbrev pub Verdict : Type 0 → Type 0
Verdict B = Limiter B × Option B × Bool

-- A bucket that makes `rate` bytes available each second.
module _ {B : Type 0} (new_bucket : ℕ → B) where
  unfoldable pub take_bucket : Limiter B → String → ℕ → Verdict B
  take_bucket l taguuid rate =
      if ltb 0 rate
      then elim (lookup taguuid l.speed_limiter) [
        | some b ↦ (l, some b, false)
        | none ↦ (
          record l { speed_limiter = insert taguuid (new_bucket rate) l.speed_limiter },
          some (new_bucket rate),
          false,
        )
      ]
      else (l, none, false)

  -- Behind the device check.
  unfoldable pub finish : Limiter B → String → ℕ → Devices → Verdict B
  finish l taguuid rate (online, old, reject) =
      let l' : Limiter B = record l { user_online_ip = online; old_user_online = old } in
      if reject then (l', none, true) else take_bucket l' taguuid rate

  -- From the user's entry on.
  unfoldable pub check_user : Limiter B → String → String → Bool → ℕ → UserLimitInfo → Verdict B
  check_user l taguuid ip no_ss_udp now u =
      let l' : Limiter B = record l { user_limit_info = refresh l.user_limit_info taguuid u now } in
      let rate = byte_rate l.speed_limit (user_limit_of u now) in
      if no_ss_udp
      then finish l' taguuid rate (
          check_devices l.user_online_ip l.old_user_online taguuid ip u.uid u.device_limit
            (Alive.get l.alive_list u.uid))
      else take_bucket l' taguuid rate

  -- Behind the connection limiter, whose answer is `full`.
  unfoldable pub check_admitted : Limiter B → String → String → Bool → ℕ → Bool → Verdict B
  check_admitted l taguuid ip no_ss_udp now full =
      if full then (l, none, true) else elim (lookup taguuid l.user_limit_info) [
        | none ↦ (l, none, true)
        | some u ↦ check_user l taguuid ip no_ss_udp now u
      ]

  -- `none` is a panic of the connection limiter.
  unfoldable pub check_limit : Limiter B → String → String → Bool → Bool → ℕ → Option (Verdict B)
  check_limit l taguuid raw_ip is_tcp no_ss_udp now =
      let ip = trim_prefix raw_ip "::ffff:" in
      do
        (c, full) ← add_conn_count l.conn_limiter taguuid ip is_tcp now
        some (check_admitted (record l { conn_limiter = c }) taguuid ip no_ss_udp now full)
