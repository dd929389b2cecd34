-- ===== src/Node/Dynamic.antt =====
-- SpeedChecker of node/task.go: users who have moved enough bytes get the dynamic speed limit.
use yunzes_node.Base.{
  ℕ, ◌+◌, ◌*◌, ◌≤◌, ◌≡◌, refl, inl, inr, String, Option, none, some, List, [], ◌∷◌, leb, ◌==◌,
  if◌then◌else◌, Map, Distinct, lookup, any, string_eq, nat_eq, arith, eq_iff, lookup-insert,
  Option-cases,
}
use yunzes_node.Format.{user_tag}
use yunzes_node.Conf.{DynamicSpeedLimitConfig}
use yunzes_node.Limiter.State.{Limiter, UserLimitInfo, update_dynamic_speed_limit}
use yunzes_node.Limiter.Check.{unix}
use yunzes_node.Limiter.Users.{user_tag-==}
use yunzes_node.Node.Traffic
use yunzes_node.Node.Traffic.{drain_lem}
use yunzes_node.Node.Controller.{Controller}

-- A user who is not found is only logged.
unfoldable pub limit_each : {B : Type 0} → Limiter B → String → ℕ → ℕ → List String → Limiter B
limit_each l rk limit expire [] = l
limit_each l rk limit expire (uuid ∷ uuids) =
    elim (update_dynamic_speed_limit l rk uuid limit expire) [
      | none ↦ limit_each l rk limit expire uuids
      | some l' ↦ limit_each l' rk limit expire uuids
    ]

-- The time when the limit runs out, in Unix seconds, `minutes` after `now` in nanoseconds.
abbrev pub expiry : ℕ → ℕ → ℕ
expiry now minutes = unix (now + minutes * 60000000000)

unfoldable pub speed_checker : {S B : Type 0} → Controller S B → ℕ → Controller S B
speed_checker c now = elim c.limit_config.dynamic_speed_limit_config [
  | none ↦ c
  | some cfg ↦
      let (traffic, uuids) = Traffic.drain c.traffic cfg.traffic in
      record c {
        traffic = traffic;
        limiter =
            limit_each c.limiter c.runtime_key cfg.speed_limit (expiry now cfg.expire_time) uuids;
      }
]

-- The entry of a user who is given the dynamic limit.
abbrev pub slowed : ℕ → ℕ → UserLimitInfo → UserLimitInfo
slowed limit expire u = record u { dynamic_speed_limit = limit; expire_time = expire }

abbrev pub when_found :
    (UserLimitInfo → UserLimitInfo) → Option UserLimitInfo → Option UserLimitInfo
when_found f none = none
when_found f (some u) = some (f u)

module _ {B : Type 0} (rk uuid : String) (limit expire : ℕ) where
  update-info :
      (l l' : Limiter B) (other : String)
      → update_dynamic_speed_limit l rk other limit expire ≡ some l'
      → lookup (user_tag rk uuid) l'.user_limit_info ≡ (
          if other == uuid
          then when_found (slowed limit expire) (lookup (user_tag rk uuid) l.user_limit_info)
          else lookup (user_tag rk uuid) l.user_limit_info)
  unfolding update_dynamic_speed_limit
  update-info l l' other h = elim (Option-cases (lookup (user_tag rk other) l.user_limit_info)) [
    | inl e ↦ absurd (ground arith)
    | inr (u, e) ↦ ground (
      arith,
      user_tag-== rk other uuid,
      eq_iff other uuid,
      lookup-insert (user_tag rk other) (user_tag rk uuid) (slowed limit expire u)
          l.user_limit_info,
    )
  ]

  update-missing :
      (l : Limiter B) (other : String)
      → update_dynamic_speed_limit l rk other limit expire ≡ none
      → lookup (user_tag rk other) l.user_limit_info ≡ none
  unfolding update_dynamic_speed_limit
  update-missing l other h = ground arith

  limit_each-info :
      (l : Limiter B) (uuids : List String)
      → lookup (user_tag rk uuid) (limit_each l rk limit expire uuids).user_limit_info ≡ (
          if any (λ u. u == uuid) uuids
          then when_found (slowed limit expire) (lookup (user_tag rk uuid) l.user_limit_info)
          else lookup (user_tag rk uuid) l.user_limit_info)
  unfolding limit_each
  limit_each-info l [] = refl
  limit_each-info l (u ∷ us) =
      elim (Option-cases (update_dynamic_speed_limit l rk u limit expire)) [
        | inl e ↦ ground (arith, e, limit_each-info l us, update-missing l u e, eq_iff u uuid)
        | inr (l', e) ↦ ground (arith, e, limit_each-info l' us, update-info l l' u e)
      ]

-- One run of the checker with a configuration whose threshold is positive, on a store with one
-- entry for each uuid: a user on record whose bytes have reached the threshold has the
-- configured dynamic limit and its expiry afterwards, and has zero bytes; the entry and the
-- bytes of every other user stay.
pub speed_checker_lem :
    {S B : Type 0} (c : Controller S B) (now : ℕ) (cfg : DynamicSpeedLimitConfig) (m : Map String ℕ)
    (uuid : String)
    → c.limit_config.dynamic_speed_limit_config ≡ some cfg
    → c.traffic ≡ some m
    → Distinct m
    → 1 ≤ cfg.traffic
    → let c' = speed_checker c now in
      let over = leb cfg.traffic (Traffic.get (some m) uuid) in
      (lookup (user_tag c.runtime_key uuid) c'.limiter.user_limit_info ≡ (
        if over
        then when_found
            (slowed cfg.speed_limit (expiry now cfg.expire_time))
            (lookup (user_tag c.runtime_key uuid) c.limiter.user_limit_info)
        else lookup (user_tag c.runtime_key uuid) c.limiter.user_limit_info))
      × (Traffic.get c'.traffic uuid ≡ (if over then 0 else Traffic.get (some m) uuid))
unfolding speed_checker
speed_checker_lem c now cfg m uuid h k d p =
    let (taken, left) = drain_lem m cfg.traffic uuid d p in
    let limits =
      limit_each-info c.runtime_key uuid cfg.speed_limit (expiry now cfg.expire_time) c.limiter
        (Traffic.drain (some m) cfg.traffic).1 in
    rw (h, k) (ground (arith, limits, taken), left)
