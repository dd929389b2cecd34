-- ===== src/Limiter/Users.antt =====
-- What UpdateUser (limiter/limiter.go) does to the entry and the bucket of each user.
use yunzes_node.Base.{
  ℕ, zero, suc, false, not, nat_eq, ◌≡◌, refl, inl, inr, String, Bool, true, Option, none, some,
  List, [], ◌∷◌, ◌==◌, any, if◌then◌else◌, lookup, string_eq, arith, lookup-insert, lookup-erase,
  eq_iff, or_else, Bool-cases, ap, ◌∙◌,
}
use yunzes_node.Format.{user_tag, user_tag-injective}
use yunzes_node.Panel.{UserInfo}
use yunzes_node.Limiter.State.{
  Limiter, UserLimitInfo, limits_of, delete_user, add_user, delete_users, add_users, update_user,
}

-- The last entry of a list for a uuid.
abbrev pub latest : String → List UserInfo → Option UserInfo
latest uuid [] = none
latest uuid (u ∷ us) = or_else (latest uuid us) (if u.uuid == uuid then some u else none)

abbrev pub listed : String → List UserInfo → Bool
listed uuid = any (λ u. u.uuid == uuid)

pub user_tag-== : (rk a b : String) → (user_tag rk a == user_tag rk b) ≡ (a == b)
user_tag-== rk a b = elim (Bool-cases (a == b)) [
  | inl e ↦
      let same : a ≡ b = (eq_iff a b).0 e in
      e' e ((eq_iff (user_tag rk a) (user_tag rk b)).1 (ap (user_tag rk) same))
  | inr e ↦ elim (Bool-cases (user_tag rk a == user_tag rk b)) [
    | inl t ↦
        let same =
          (eq_iff a b).1
            (user_tag-injective rk a b ((eq_iff (user_tag rk a) (user_tag rk b)).0 t)) in
        absurd (ground (arith, e, same))
    | inr t ↦ ground (arith, e, t)
  ]
]
  where
    e' :
        (a == b) ≡ true
        → (user_tag rk a == user_tag rk b) ≡ true
        → (user_tag rk a == user_tag rk b) ≡ (a == b)
    e' h k = ground (arith, h, k)

abbrev stored : Option UserInfo → Option UserLimitInfo
stored none = none
stored (some u) = some (limits_of u)

-- The limits that the panel sends, with no dynamic limit.
abbrev pub sent_limits : UserInfo → UserLimitInfo
sent_limits u = record {
  uid = u.id;
  speed_limit = u.speed_limit;
  device_limit = u.device_limit;
  dynamic_speed_limit = 0;
  expire_time = 0;
  over_limit = false;
}

kept_or_zero : (n : ℕ) → (if not (n == 0) then n else 0) ≡ n
kept_or_zero zero = refl
kept_or_zero (suc n) = ground arith

limits_of_lem : (u : UserInfo) → limits_of u ≡ sent_limits u
unfolding limits_of
limits_of_lem u = rw (kept_or_zero u.speed_limit, kept_or_zero u.device_limit) refl

stored_lem :
    (u : Option UserInfo) → stored u ≡ elim u [ none ↦ none | some v ↦ some (sent_limits v) ]
stored_lem none = refl
stored_lem (some u) = ap some (limits_of_lem u)

module _ {B : Type 0} (rk uuid : String) where
  add_users-info :
      (l : Limiter B) (added : List UserInfo)
      → lookup (user_tag rk uuid) (add_users rk l added).user_limit_info
        ≡ or_else (stored (latest uuid added)) (lookup (user_tag rk uuid) l.user_limit_info)
  unfolding add_users add_user
  add_users-info l [] = refl
  add_users-info l (u ∷ us) =
      add_users-info (add_user rk l u) us
      ∙ ground (
        arith,
        user_tag-== rk u.uuid uuid,
        lookup-insert (user_tag rk u.uuid) (user_tag rk uuid) (limits_of u) l.user_limit_info,
      )

  delete_users-info :
      (l : Limiter B) (deleted : List UserInfo)
      → lookup (user_tag rk uuid) (delete_users rk l deleted).user_limit_info
        ≡ (if listed uuid deleted then none else lookup (user_tag rk uuid) l.user_limit_info)
  unfolding delete_users delete_user
  delete_users-info l [] = refl
  delete_users-info l (u ∷ us) =
      delete_users-info (delete_user rk l u) us
      ∙ ground (
        arith,
        user_tag-== rk u.uuid uuid,
        lookup-erase (user_tag rk u.uuid) (user_tag rk uuid) l.user_limit_info,
      )

  delete_users-bucket :
      (l : Limiter B) (deleted : List UserInfo)
      → lookup (user_tag rk uuid) (delete_users rk l deleted).speed_limiter
        ≡ (if listed uuid deleted then none else lookup (user_tag rk uuid) l.speed_limiter)
  unfolding delete_users delete_user
  delete_users-bucket l [] = refl
  delete_users-bucket l (u ∷ us) =
      delete_users-bucket (delete_user rk l u) us
      ∙ ground (
        arith,
        user_tag-== rk u.uuid uuid,
        lookup-erase (user_tag rk u.uuid) (user_tag rk uuid) l.speed_limiter,
      )

  add_users-bucket :
      (l : Limiter B) (added : List UserInfo)
      → (add_users rk l added).speed_limiter ≡ l.speed_limiter
  unfolding add_users add_user
  add_users-bucket l [] = refl
  add_users-bucket l (u ∷ us) = add_users-bucket (add_user rk l u) us

  -- After an update an added user has the uid and the limits of the last entry for the uuid and no
  -- dynamic limit, also when the uuid was deleted in the same update; any other deleted user has no entry,
  -- and all others keep theirs. The bucket is gone exactly for the deleted.
  pub update_user_lem :
      (l : Limiter B) (added deleted : List UserInfo)
      → (lookup (user_tag rk uuid) (update_user l rk added deleted).user_limit_info
          ≡ elim (latest uuid added) [
            | some u ↦ some (sent_limits u)
            | none ↦
                if listed uuid deleted then none else lookup (user_tag rk uuid) l.user_limit_info
          ])
        × (lookup (user_tag rk uuid) (update_user l rk added deleted).speed_limiter
            ≡ (if listed uuid deleted then none else lookup (user_tag rk uuid) l.speed_limiter))
  unfolding update_user
  update_user_lem l added deleted =
      let l' = delete_users rk l deleted in
      (
        ground (
          arith,
          add_users-info l' added,
          delete_users-info l deleted,
          stored_lem (latest uuid added),
        ),
        ground (arith, add_users-bucket l' added, delete_users-bucket l deleted),
      )
