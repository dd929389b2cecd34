-- ===== src/Limiter/Check/Limits.antt =====
-- The limits that CheckLimit (limiter/limiter.go) applies to admitted connections: the bucket,
-- and a dynamic limit that has run out.
use yunzes_node.Base.{
  ℕ, ◌≡◌, refl, ◌⊎◌, inl, inr, String, Bool, true, false, Option, none, some, ltb, if◌then◌else◌,
  lookup, nat_eq, string_eq, trim_prefix, arith, lookup-insert_self, Bool-cases, Option-cases, sym,
  ap, ◌∙◌,
}
use yunzes_node.Format.{user_tag}
use yunzes_node.Limiter.Conn.{ConnLimiter}
use yunzes_node.Limiter.State.{Limiter, UserLimitInfo, update_dynamic_speed_limit}
use yunzes_node.Limiter.Check.{
  expired, user_limit_of, byte_rate, Verdict, take_bucket, finish, Devices, check_user,
  check_admitted, check_limit,
}
use yunzes_node.Limiter.Check.Verdict.{check_limit-inv, check_limit_iff, check_admitted-known}
use yunzes_node.Limiter.Check.Effects.{check_user-info, refresh-expired}

module _ {B : Type 0} (new_bucket : ℕ → B) where
  full_rejects :
      (l : Limiter B) (taguuid ip : String) (no_ss_udp : Bool) (now : ℕ)
      → (check_admitted new_bucket l taguuid ip no_ss_udp now true).2 ≡ true
  unfolding check_admitted
  full_rejects l taguuid ip no_ss_udp now = refl

  -- An admitted check on a user with limits went through `check_user`.
  admitted-check_user :
      (l l' : Limiter B) (taguuid raw_ip : String) (is_tcp no_ss_udp : Bool) (now : ℕ)
      (b : Option B) (u : UserLimitInfo)
      → check_limit new_bucket l taguuid raw_ip is_tcp no_ss_udp now ≡ some (l', b, false)
      → lookup taguuid l.user_limit_info ≡ some u
      → (c : ConnLimiter) × (check_user new_bucket
            (record l { conn_limiter = c })
            taguuid
            (trim_prefix raw_ip "::ffff:")
            no_ss_udp
            now
            u
          ≡ (l', b, false))
  admitted-check_user l l' taguuid raw_ip is_tcp no_ss_udp now b u h k =
      let ip = trim_prefix raw_ip "::ffff:" in
      let (c, full, _, e) =
        check_limit-inv new_bucket l l' taguuid raw_ip is_tcp no_ss_udp false now b h in
      let known =
        check_admitted-known new_bucket (record l { conn_limiter = c }) taguuid ip no_ss_udp now u
          k in
      (
        c,
        elim (Bool-cases full) [
          | inl t ↦
              let rejects = full_rejects (record l { conn_limiter = c }) taguuid ip no_ss_udp now in
              absurd (ground (arith, t, e, rejects))
          | inr f ↦ sym known ∙ rw f at e
        ],
      )

  -- A user with no speed limit of their own, whose dynamic limit has run out: if the check of a
  -- connection admits it, then a check of the same user on the limiter that is left, if it
  -- returns, rejects.
  pub expired_then_rejected :
      (l l' l'' : Limiter B) (taguuid raw_ip later_ip : String)
      (is_tcp no_ss_udp later_tcp later_no_ss_udp r : Bool) (now later : ℕ) (b b' : Option B)
      (u : UserLimitInfo)
      → lookup taguuid l.user_limit_info ≡ some u
      → expired u now ≡ true
      → u.speed_limit ≡ 0
      → check_limit new_bucket l taguuid raw_ip is_tcp no_ss_udp now ≡ some (l', b, false)
      → check_limit new_bucket l' taguuid later_ip later_tcp later_no_ss_udp later
        ≡ some (l'', b', r)
      → r ≡ true
  expired_then_rejected l l' l'' taguuid raw_ip later_ip is_tcp no_ss_udp later_tcp later_no_ss_udp
        r now later b b' u k x z h h' =
      let (c, e) = admitted-check_user l l' taguuid raw_ip is_tcp no_ss_udp now b u h k in
      let info =
        check_user-info new_bucket (record l { conn_limiter = c }) taguuid
          (trim_prefix raw_ip "::ffff:") no_ss_udp now u in
      let gone : lookup taguuid l'.user_limit_info ≡ none =
        ap (λ (v : Verdict B). lookup taguuid v.0.user_limit_info) (sym e)
        ∙ ap (lookup taguuid) info
        ∙ refresh-expired new_bucket l.user_limit_info taguuid u now x z in
      (check_limit_iff new_bucket l' l'' taguuid later_ip later_tcp later_no_ss_udp r later b' h').1
        (inr (inl gone))

  -- The bucket of an admitted connection, from the bucket on record and the rate.
  abbrev pub bucket_for : Option B → ℕ → Option B
  bucket_for stored rate =
      if ltb 0 rate then elim stored [ none ↦ some (new_bucket rate) | some b ↦ some b ] else none

  take_bucket-bucket_for :
      (l : Limiter B) (taguuid : String) (rate : ℕ)
      → (take_bucket new_bucket l taguuid rate).1 ≡ bucket_for (lookup taguuid l.speed_limiter) rate
  unfolding take_bucket
  take_bucket-bucket_for l taguuid rate = ground arith

  finish-bucket_for :
      (l : Limiter B) (taguuid : String) (rate : ℕ) (d : Devices)
      → (finish new_bucket l taguuid rate d).2 ≡ false
      → (finish new_bucket l taguuid rate d).1 ≡ bucket_for (lookup taguuid l.speed_limiter) rate
  unfolding finish
  finish-bucket_for l taguuid rate (online, old, true) h = absurd (ground (arith, h))
  finish-bucket_for l taguuid rate (online, old, false) h = take_bucket-bucket_for _ taguuid rate

  check_user-bucket_for :
      (l : Limiter B) (taguuid ip : String) (no_ss_udp : Bool) (now : ℕ) (u : UserLimitInfo)
      → (check_user new_bucket l taguuid ip no_ss_udp now u).2 ≡ false
      → (check_user new_bucket l taguuid ip no_ss_udp now u).1
        ≡ bucket_for
            (lookup taguuid l.speed_limiter)
            (byte_rate l.speed_limit (user_limit_of u now))
  unfolding check_user
  check_user-bucket_for l taguuid ip false now u h = take_bucket-bucket_for _ taguuid _
  check_user-bucket_for l taguuid ip true now u h = finish-bucket_for _ taguuid _ _ h

  -- An admitted connection of a user with limits is given the bucket on record, whatever the limits
  -- are by now, or else a new one of the rate that the limits give, or none if there is no limit.
  pub check_limit-bucket_for :
      (l l' : Limiter B) (taguuid raw_ip : String) (is_tcp no_ss_udp : Bool) (now : ℕ)
      (b : Option B) (u : UserLimitInfo)
      → check_limit new_bucket l taguuid raw_ip is_tcp no_ss_udp now ≡ some (l', b, false)
      → lookup taguuid l.user_limit_info ≡ some u
      → b
        ≡ bucket_for
            (lookup taguuid l.speed_limiter)
            (byte_rate l.speed_limit (user_limit_of u now))
  check_limit-bucket_for l l' taguuid raw_ip is_tcp no_ss_udp now b u h k =
      let (c, e) = admitted-check_user l l' taguuid raw_ip is_tcp no_ss_udp now b u h k in
      ap (λ (v : Verdict B). v.1) (sym e)
      ∙ check_user-bucket_for (record l { conn_limiter = c }) taguuid (trim_prefix raw_ip "::ffff:")
          no_ss_udp now u (ap (λ (v : Verdict B). v.2) e)

  -- The panel's user is on record after a dynamic limit has been set, and keeps the bucket.
  update_dynamic_speed_limit_lem :
      (l l' : Limiter B) (rk uuid : String) (limit expire : ℕ)
      → update_dynamic_speed_limit l rk uuid limit expire ≡ some l'
      → (u : UserLimitInfo) × (lookup (user_tag rk uuid) l'.user_limit_info ≡ some u)
        × (l'.speed_limiter ≡ l.speed_limiter)
  unfolding update_dynamic_speed_limit
  update_dynamic_speed_limit_lem l l' rk uuid limit expire h =
      elim (Option-cases (lookup (user_tag rk uuid) l.user_limit_info)) [
        | inl e ↦ absurd (ground arith)
        | inr (u, e) ↦
            let set = record u { dynamic_speed_limit = limit; expire_time = expire } in
            (
              set,
              ground (arith, lookup-insert_self (user_tag rk uuid) set l.user_limit_info),
              ground arith,
            )
      ]

  -- If a user has a bucket and is then given a dynamic limit, a check that admits a connection
  -- of the user on the limiter that is left gives it that old bucket, or none at all.
  pub dynamic_limit_ignored :
      (l l' l'' : Limiter B) (rk uuid raw_ip : String) (limit expire now : ℕ)
      (is_tcp no_ss_udp : Bool) (b : Option B) (bucket : B)
      → lookup (user_tag rk uuid) l.speed_limiter ≡ some bucket
      → update_dynamic_speed_limit l rk uuid limit expire ≡ some l'
      → check_limit new_bucket l' (user_tag rk uuid) raw_ip is_tcp no_ss_udp now
        ≡ some (l'', b, false)
      → (b ≡ some bucket) ⊎ (b ≡ none)
  dynamic_limit_ignored l l' l'' rk uuid raw_ip limit expire now is_tcp no_ss_udp b bucket h k c =
      let (u, on_record, kept) = update_dynamic_speed_limit_lem l l' rk uuid limit expire k in
      let given =
        check_limit-bucket_for l' l'' (user_tag rk uuid) raw_ip is_tcp no_ss_udp now b u c
          on_record in
      let old : lookup (user_tag rk uuid) l'.speed_limiter ≡ some bucket =
        ap (lookup (user_tag rk uuid)) kept ∙ h in
      ground (arith, given, old)
