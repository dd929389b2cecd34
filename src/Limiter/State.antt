-- ===== src/Limiter/State.antt =====
-- The Limiter of limiter/limiter.go and limiter/dynamic.go: its construction from a user list,
-- the panel's updates, and the dynamic speed limit. A token bucket is a value of a type `B`,
-- since the rate limiter is not part of this program.
use yunzes_node.Base.{
  ℕ, ◌+◌, String, Bool, false, not, Option, none, some, List, [], ◌∷◌, ◌++◌, ◌==◌, if◌then◌else◌,
  Map, lookup, insert, erase, nat_eq, string_eq,
}
use yunzes_node.Format.{user_tag}
use yunzes_node.Panel.{UserInfo, OnlineUser}
use yunzes_node.Conf.{LimitConfig}
use yunzes_node.Limiter.Conn.{ConnLimiter, new_conn_limiter}
use yunzes_node.Limiter.Alive
use yunzes_node.Limiter.Alive.{AliveStore, new_alive_store}
use yunzes_node.Limiter.OldOnline
use yunzes_node.Limiter.OldOnline.{OldUserOnlineStore}

pub record UserLimitInfo : Type 0 where
  pub uid : ℕ
  pub speed_limit : ℕ
  pub device_limit : ℕ
  pub dynamic_speed_limit : ℕ
  pub expire_time : ℕ
  pub over_limit : Bool

pub record Limiter (B : Type 0) : Type 0 where
  pub speed_limit : ℕ
  pub user_online_ip : Map String (Map String ℕ)
  pub old_user_online : OldUserOnlineStore
  pub uuid_to_uid : Map String ℕ
  pub user_limit_info : Map String UserLimitInfo
  pub conn_limiter : ConnLimiter
  pub speed_limiter : Map String B
  pub alive_list : AliveStore

-- The limits of one user of the panel's list.
unfoldable pub limits_of : UserInfo → UserLimitInfo
limits_of u = record {
  uid = u.id;
  speed_limit = if not (u.speed_limit == 0) then u.speed_limit else 0;
  device_limit = if not (u.device_limit == 0) then u.device_limit else 0;
  dynamic_speed_limit = 0;
  expire_time = 0;
  over_limit = false;
}

unfoldable pub store_limits :
    String → Map String UserLimitInfo → List UserInfo → Map String UserLimitInfo
store_limits rk m [] = m
store_limits rk m (u ∷ us) = store_limits rk (insert (user_tag rk u.uuid) (limits_of u) m) us

unfoldable pub store_uids : Map String ℕ → List UserInfo → Map String ℕ
store_uids m [] = m
store_uids m (u ∷ us) = store_uids (insert u.uuid u.id m) us

-- GetOnlineDevice: one user's IPs, in the order of the map, each noted as recently online.
unfoldable pub report_ips : ℕ → Map String ℕ → OldUserOnlineStore → OldUserOnlineStore
report_ips now [] s = s
report_ips now ((ip, uid) ∷ ips) s = report_ips now ips (OldOnline.store s ip uid now)

unfoldable pub online_of : Map String ℕ → List OnlineUser
online_of [] = []
online_of ((ip, uid) ∷ ips) = record { uid = uid; ip = ip } ∷ online_of ips

unfoldable pub online_users : Map String (Map String ℕ) → List OnlineUser
online_users [] = []
online_users ((tag, ips) ∷ m) = online_of ips ++ online_users m

unfoldable pub report_all : ℕ → Map String (Map String ℕ) → OldUserOnlineStore → OldUserOnlineStore
report_all now [] s = s
report_all now ((tag, ips) ∷ m) s = report_all now m (report_ips now ips s)

module _ {B : Type 0} where
  -- The Limiter that AddLimiter builds for a runtime key.
  unfoldable pub new_limiter : String → LimitConfig → List UserInfo → Map ℕ ℕ → Limiter B
  new_limiter rk l users alive = record {
    speed_limit = l.speed_limit;
    user_online_ip = [];
    old_user_online = [];
    uuid_to_uid = store_uids [] users;
    user_limit_info = store_limits rk [] users;
    conn_limiter = new_conn_limiter l.conn_limit l.ip_limit l.enable_realtime;
    speed_limiter = [];
    alive_list = new_alive_store alive;
  }

  unfoldable pub delete_user : String → Limiter B → UserInfo → Limiter B
  delete_user rk l u = record l {
    user_limit_info = erase (user_tag rk u.uuid) l.user_limit_info;
    user_online_ip = erase (user_tag rk u.uuid) l.user_online_ip;
    speed_limiter = erase (user_tag rk u.uuid) l.speed_limiter;
    uuid_to_uid = erase u.uuid l.uuid_to_uid;
    alive_list = Alive.delete l.alive_list u.id;
  }

  unfoldable pub add_user : String → Limiter B → UserInfo → Limiter B
  add_user rk l u = record l {
    user_limit_info = insert (user_tag rk u.uuid) (limits_of u) l.user_limit_info;
    uuid_to_uid = insert u.uuid u.id l.uuid_to_uid;
  }

  unfoldable pub delete_users : String → Limiter B → List UserInfo → Limiter B
  delete_users rk l [] = l
  delete_users rk l (u ∷ us) = delete_users rk (delete_user rk l u) us

  unfoldable pub add_users : String → Limiter B → List UserInfo → Limiter B
  add_users rk l [] = l
  add_users rk l (u ∷ us) = add_users rk (add_user rk l u) us

  unfoldable pub update_user : Limiter B → String → List UserInfo → List UserInfo → Limiter B
  update_user l rk added deleted = add_users rk (delete_users rk l deleted) added

  -- `none` is the error "not found"; the expiry is in Unix seconds.
  unfoldable pub update_dynamic_speed_limit :
      Limiter B → String → String → ℕ → ℕ → Option (Limiter B)
  update_dynamic_speed_limit l rk uuid limit expire =
      elim (lookup (user_tag rk uuid) l.user_limit_info) [
        | none ↦ none
        | some info ↦ some (record l {
          user_limit_info =
              insert (user_tag rk uuid)
                (record info { dynamic_speed_limit = limit; expire_time = expire })
                l.user_limit_info;
        })
      ]

  -- AddDynamicSpeedLimit: the entry is replaced by one with no uid and no other limit.
  unfoldable pub add_dynamic_speed_limit : Limiter B → String → UserInfo → ℕ → ℕ → ℕ → Limiter B
  add_dynamic_speed_limit l rk u limit now expire = record l {
    user_limit_info =
        insert (user_tag rk u.uuid)
          (record {
            uid = 0;
            speed_limit = 0;
            device_limit = 0;
            dynamic_speed_limit = limit;
            expire_time = now + expire;
            over_limit = false;
          })
          l.user_limit_info;
  }

  -- The online users, and the limiter with every user's online IPs reset.
  unfoldable pub get_online_device : Limiter B → ℕ → Limiter B × List OnlineUser
  get_online_device l now = (
    record l {
      user_online_ip = [];
      old_user_online = report_all now l.user_online_ip l.old_user_online;
    },
    online_users l.user_online_ip,
  )
