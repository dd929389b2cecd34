-- ===== src/Limiter/Check/Verdict.antt =====
-- When CheckLimit (limiter/limiter.go) rejects, and what an admitted connection is given.
use yunzes_node.Base.{
  ℕ, ◌≤◌, ◌<◌, ◌≡◌, refl, ◌↔◌, ◌⊎◌, inl, inr, String, Bool, true, false, Option, none, some, Map,
  lookup, nat_eq, string_eq, trim_prefix, arith, Option-cases, subst, sym, ap, ◌∙◌,
}
use yunzes_node.Limiter.Conn.{ConnLimiter, add_conn_count}
use yunzes_node.Limiter.Conn.Admission.{AtConnLimit, AtIpLimit, add_conn_count-rejects_iff}
use yunzes_node.Limiter.Alive
use yunzes_node.Limiter.OldOnline
use yunzes_node.Limiter.OldOnline.{OldUserOnlineStore}
use yunzes_node.Limiter.State.{Limiter, UserLimitInfo}
use yunzes_node.Limiter.Check.{
  user_limit_of, device_full, check_known_user, check_new_user, check_devices, byte_rate, Verdict,
  take_bucket, finish, Devices, check_user, check_admitted, check_limit,
}

-- The user may be given one more device: no device limit, or fewer devices alive than that.
abbrev pub HasRoom : {B : Type 0} → Limiter B → UserLimitInfo → Type 0
HasRoom l u = (u.device_limit ≡ 0) ⊎ (Alive.get l.alive_list u.uid < u.device_limit)

-- The IP is one of the user's, or was just now online while the user has no IP yet.
abbrev pub KnownDevice : {B : Type 0} → Limiter B → String → String → Type 0
KnownDevice l taguuid ip =
    ((ips : Map String ℕ) × (lookup taguuid l.user_online_ip ≡ some ips)
      × ((uid : ℕ) × (lookup ip ips ≡ some uid)))
    ⊎ ((lookup taguuid l.user_online_ip ≡ none)
        × ((uid : ℕ) × (OldOnline.load l.old_user_online ip ≡ some uid)))

device_full_iff :
    (limit alive : ℕ) → (device_full limit alive ≡ true) ↔ ((0 < limit) × (limit ≤ alive))
unfolding device_full
device_full_iff limit alive = ground arith

true_iff_not : {P : Type 0} (b : Bool) → (b ≡ false) ↔ P → (b ≡ true) ↔ (¬ P)
true_iff_not true e = (λ _ p. absurd (ground (arith, e.1 p)), λ _. refl)
true_iff_not false e = (λ h. absurd (ground (arith, h)), λ n. absurd (n (e.0 refl)))

module _ {B : Type 0} (new_bucket : ℕ → B) where
  take_bucket-admits :
      (l : Limiter B) (taguuid : String) (rate : ℕ)
      → (take_bucket new_bucket l taguuid rate).2 ≡ false
  unfolding take_bucket
  take_bucket-admits l taguuid rate = ground arith

  -- With a device check, a known user is admitted exactly if the device is known or there is room
  -- for one more.
  check_devices_iff :
      (l : Limiter B) (taguuid ip : String) (u : UserLimitInfo)
      → ((check_devices l.user_online_ip l.old_user_online taguuid ip u.uid u.device_limit
            (Alive.get l.alive_list u.uid)).2
          ≡ false)
        ↔ (KnownDevice l taguuid ip ⊎ HasRoom l u)
  unfolding check_devices check_known_user check_new_user
  check_devices_iff l taguuid ip u = elim (Option-cases (lookup taguuid l.user_online_ip)) [
    | inl e ↦ elim (Option-cases (OldOnline.load l.old_user_online ip)) [
      | inl e' ↦ ground (arith, device_full_iff u.device_limit (Alive.get l.alive_list u.uid))
      | inr (s, e') ↦ (λ _. inl (inr (e, (s, e'))), λ _. ground arith)
    ]
    | inr (ips, e) ↦ elim (Option-cases (lookup ip ips)) [
      | inl e' ↦ ground (arith, device_full_iff u.device_limit (Alive.get l.alive_list u.uid))
      | inr (s, e') ↦ (λ _. inl (inl (ips, e, (s, e'))), λ _. ground arith)
    ]
  ]

  finish-rejects :
      (l : Limiter B) (taguuid : String) (rate : ℕ) (d : Devices)
      → (finish new_bucket l taguuid rate d).2 ≡ d.2
  unfolding finish
  finish-rejects l taguuid rate (online, old, true) = refl
  finish-rejects l taguuid rate (online, old, false) = take_bucket-admits _ taguuid rate

  check_user-devices :
      (l : Limiter B) (taguuid ip : String) (now : ℕ) (u : UserLimitInfo)
      → (check_user new_bucket l taguuid ip true now u).2
        ≡ (check_devices l.user_online_ip l.old_user_online taguuid ip u.uid u.device_limit
            (Alive.get l.alive_list u.uid)).2
  unfolding check_user
  check_user-devices l taguuid ip now u =
      finish-rejects _ taguuid (byte_rate l.speed_limit (user_limit_of u now)) (
        check_devices l.user_online_ip l.old_user_online taguuid ip u.uid u.device_limit
          (Alive.get l.alive_list u.uid))

  check_user-packet :
      (l : Limiter B) (taguuid ip : String) (now : ℕ) (u : UserLimitInfo)
      → (check_user new_bucket l taguuid ip false now u).2 ≡ false
  unfolding check_user
  check_user-packet l taguuid ip now u =
      take_bucket-admits _ taguuid (byte_rate l.speed_limit (user_limit_of u now))

  check_user_iff :
      (l : Limiter B) (taguuid ip : String) (no_ss_udp : Bool) (now : ℕ) (u : UserLimitInfo)
      → ((check_user new_bucket l taguuid ip no_ss_udp now u).2 ≡ true)
        ↔ ((no_ss_udp ≡ true) × ¬ (KnownDevice l taguuid ip ⊎ HasRoom l u))
  check_user_iff l taguuid ip false now u =
      rw (check_user-packet l taguuid ip now u)
        (λ h. absurd (ground (arith, h)), λ h. absurd (ground (arith, h.0)))
  check_user_iff l taguuid ip true now u =
      let devices = true_iff_not _ (check_devices_iff l taguuid ip u) in
      rw (check_user-devices l taguuid ip now u) (λ h. (refl, devices.0 h), λ h. devices.1 h.1)

  pub check_admitted-known :
      (l : Limiter B) (taguuid ip : String) (no_ss_udp : Bool) (now : ℕ) (u : UserLimitInfo)
      → lookup taguuid l.user_limit_info ≡ some u
      → check_admitted new_bucket l taguuid ip no_ss_udp now false
        ≡ check_user new_bucket l taguuid ip no_ss_udp now u
  unfolding check_admitted
  check_admitted-known l taguuid ip no_ss_udp now u e = rw (e, check_admitted)

  -- The panel has given no limits for the user, or the device check refuses.
  abbrev pub Refused : Limiter B → String → String → Bool → Type 0
  Refused l taguuid ip no_ss_udp =
      (lookup taguuid l.user_limit_info ≡ none)
      ⊎ ((no_ss_udp ≡ true)
          × ((u : UserLimitInfo) × (lookup taguuid l.user_limit_info ≡ some u)
              × ¬ (KnownDevice l taguuid ip ⊎ HasRoom l u)))

  check_admitted_iff :
      (l : Limiter B) (taguuid ip : String) (no_ss_udp : Bool) (now : ℕ) (full : Bool)
      → ((check_admitted new_bucket l taguuid ip no_ss_udp now full).2 ≡ true)
        ↔ ((full ≡ true) ⊎ Refused l taguuid ip no_ss_udp)
  unfolding check_admitted
  check_admitted_iff l taguuid ip no_ss_udp now true = (λ _. inl refl, λ _. refl)
  check_admitted_iff l taguuid ip no_ss_udp now false =
      elim (Option-cases (lookup taguuid l.user_limit_info)) [
        | inl e ↦ (λ _. inr (inl e), λ _. ground arith)
        | inr (u, e) ↦ rw (check_admitted-known l taguuid ip no_ss_udp now u e) (
            let user = check_user_iff l taguuid ip no_ss_udp now u in
            (
              λ h. inr (inr ((user.0 h).0, (u, e, (user.0 h).1))),
              λ o. elim o [
                | inl h ↦ absurd (ground (arith, h))
                | inr (inl h) ↦ absurd (ground (arith, h))
                | inr (inr (t, (v, e', n))) ↦
                    let same : v ≡ u = ground (arith, e, e') in
                    user.1 (t, subst (λ w. ¬ (KnownDevice l taguuid ip ⊎ HasRoom l w)) same n)
              ],
            ))
      ]

  -- A check that returns has asked the connection limiter, about the IP without its IPv4-mapped
  -- prefix, and gone on from its answer.
  pub check_limit-inv :
      (l l' : Limiter B) (taguuid raw_ip : String) (is_tcp no_ss_udp r : Bool) (now : ℕ)
      (b : Option B)
      → check_limit new_bucket l taguuid raw_ip is_tcp no_ss_udp now ≡ some (l', b, r)
      → (c : ConnLimiter) × (full : Bool) × (add_conn_count l.conn_limiter taguuid
            (trim_prefix raw_ip "::ffff:")
            is_tcp
            now
          ≡ some (c, full))
        × (check_admitted new_bucket
              (record l { conn_limiter = c })
              taguuid
              (trim_prefix raw_ip "::ffff:")
              no_ss_udp
              now
              full
            ≡ (l', b, r))
  unfolding check_limit
  check_limit-inv l l' taguuid raw_ip is_tcp no_ss_udp r now b h =
      elim (Option-cases
        (add_conn_count l.conn_limiter taguuid (trim_prefix raw_ip "::ffff:") is_tcp now)) [
          | inl e ↦ absurd (ground arith)
          | inr (a, e) ↦ (a.0, a.1, e, ground arith)
        ]

  -- A check that returns rejects exactly if the user is at the connection limit, or at the limit
  -- of IPs with a new one, or has no limits on record, or (where devices are checked) is on a
  -- device that is not known while there is no room for one more.
  pub check_limit_iff :
      (l l' : Limiter B) (taguuid raw_ip : String) (is_tcp no_ss_udp r : Bool) (now : ℕ)
      (b : Option B)
      → check_limit new_bucket l taguuid raw_ip is_tcp no_ss_udp now ≡ some (l', b, r)
      → let ip = trim_prefix raw_ip "::ffff:" in
        (r ≡ true) ↔ (
          (AtConnLimit l.conn_limiter taguuid ⊎ AtIpLimit l.conn_limiter taguuid ip)
          ⊎ Refused l taguuid ip no_ss_udp)
  check_limit_iff l l' taguuid raw_ip is_tcp no_ss_udp r now b h =
      let ip = trim_prefix raw_ip "::ffff:" in
      let (c, full, e, e') = check_limit-inv l l' taguuid raw_ip is_tcp no_ss_udp r now b h in
      let conn = add_conn_count-rejects_iff l.conn_limiter c taguuid ip is_tcp full now e in
      let rest = check_admitted_iff (record l { conn_limiter = c }) taguuid ip no_ss_udp now full in
      let verdict : r ≡ _ = ap (λ (v : Verdict B). v.2) (sym e') in
      (
        λ t. elim (rest.0 (sym verdict ∙ t)) [ inl f ↦ inl (conn.0 f) | inr f ↦ inr f ],
        λ o. verdict ∙ rest.1 (elim o [ inl f ↦ inl (conn.1 f) | inr f ↦ inr f ]),
      )
