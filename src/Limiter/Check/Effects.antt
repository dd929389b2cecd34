-- ===== src/Limiter/Check/Effects.antt =====
-- What CheckLimit (limiter/limiter.go) leaves behind: the counters, the user's entry, the bucket.
use yunzes_node.Base.{
  ℕ, ◌+◌, ◌≡◌, refl, ◌≢◌, inl, inr, String, Bool, true, false, Option, none, some, Map, lookup,
  nat_eq, string_eq, trim_prefix, arith, lookup-insert_self, lookup-erase_self, Option-cases,
  Returns, Returns-bind, sym, ap, ◌∙◌, subst,
}
use yunzes_node.Limiter.Conn.{ConnLimiter, add_conn_count, bump_count, next_ips, existing_ips}
use yunzes_node.Limiter.Conn.Bounds.{IsBounded, add_conn_count-IsBounded}
use yunzes_node.Limiter.State.{Limiter, UserLimitInfo}
use yunzes_node.Limiter.Check.{
  expired, refresh, Verdict, take_bucket, finish, check_user, check_admitted, check_limit,
}
use yunzes_node.Limiter.Check.Verdict.{check_limit-inv}

-- The TCP connections that the connection limiter counts for a user.
abbrev pub count_of : ConnLimiter → String → ℕ
count_of c user = elim (lookup user c.count) [ none ↦ 0 | some v ↦ v ]

bump_count-count_of :
    (c : ConnLimiter) (user : String)
    → c.conn_limit ≢ 0
    → lookup user (bump_count c user true) ≡ some (count_of c user + 1)
unfolding bump_count
bump_count-count_of c user h = elim (Option-cases (lookup user c.count)) [
  | inl e ↦ ground (arith, lookup-insert_self user 1 c.count)
  | inr (v, e) ↦ ground (arith, lookup-insert_self user (v + 1) c.count)
]

admitted-count_of :
    (c c' : ConnLimiter) (user ip : String) (now : ℕ)
    → c.conn_limit ≢ 0
    → add_conn_count c user ip true now ≡ some (c', false)
    → count_of c' user ≡ count_of c user + 1
unfolding add_conn_count
admitted-count_of c c' user ip now on h =
    elim (Option-cases (next_ips c (existing_ips c user) ip true now)) [
      | inl e ↦ ground (arith, bump_count-count_of c user on)
      | inr (ips, e) ↦ ground (arith, bump_count-count_of c user on)
    ]

module _ {B : Type 0} (new_bucket : ℕ → B) where
  check_user-conn_limiter :
      (l : Limiter B) (taguuid ip : String) (no_ss_udp : Bool) (now : ℕ) (u : UserLimitInfo)
      → (check_user new_bucket l taguuid ip no_ss_udp now u).0.conn_limiter ≡ l.conn_limiter
  unfolding check_user finish take_bucket
  check_user-conn_limiter l taguuid ip no_ss_udp now u = ground arith

  pub check_admitted-conn_limiter :
      (l : Limiter B) (taguuid ip : String) (no_ss_udp : Bool) (now : ℕ) (full : Bool)
      → (check_admitted new_bucket l taguuid ip no_ss_udp now full).0.conn_limiter ≡ l.conn_limiter
  unfolding check_admitted
  check_admitted-conn_limiter l taguuid ip no_ss_udp now true = refl
  check_admitted-conn_limiter l taguuid ip no_ss_udp now false =
      elim (Option-cases (lookup taguuid l.user_limit_info)) [
        | inl e ↦ ground arith
        | inr (u, e) ↦ ground (arith, check_user-conn_limiter l taguuid ip no_ss_udp now u)
      ]

  -- A check on a limiter whose connection limiter satisfies its invariant returns, and the
  -- invariant holds afterwards.
  pub check_limit-IsBounded :
      (conn ip : ℕ) (realtime : Bool) (l : Limiter B) (taguuid raw_ip : String)
      (is_tcp no_ss_udp : Bool) (now : ℕ)
      → IsBounded conn ip realtime l.conn_limiter
      → Returns
          (λ (v : Verdict B). IsBounded conn ip realtime v.0.conn_limiter)
          (check_limit new_bucket l taguuid raw_ip is_tcp no_ss_udp now)
  unfolding check_limit
  check_limit-IsBounded conn ip realtime l taguuid raw_ip is_tcp no_ss_udp now b =
      Returns-bind (λ r. IsBounded conn ip realtime r.0)
        (λ (v : Verdict B). IsBounded conn ip realtime v.0.conn_limiter) _ _
        (add_conn_count-IsBounded conn ip realtime l.conn_limiter b taguuid _ is_tcp now)
        (λ r d.
          subst (IsBounded conn ip realtime)
            (sym (
              check_admitted-conn_limiter (record l { conn_limiter = r.0 }) taguuid _ no_ss_udp now
                r.1))
            d)

  -- A TCP connection that the connection limiter admits stays counted also if the rest of the
  -- check rejects it: with a connection limit the user's count grows by one.
  pub check_limit_rejected-counts :
      (l l' : Limiter B) (c : ConnLimiter) (taguuid raw_ip : String) (no_ss_udp : Bool) (now : ℕ)
      (b : Option B)
      → l.conn_limiter.conn_limit ≢ 0
      → add_conn_count l.conn_limiter taguuid (trim_prefix raw_ip "::ffff:") true now
        ≡ some (c, false)
      → check_limit new_bucket l taguuid raw_ip true no_ss_udp now ≡ some (l', b, true)
      → count_of l'.conn_limiter taguuid ≡ count_of l.conn_limiter taguuid + 1
  check_limit_rejected-counts l l' c taguuid raw_ip no_ss_udp now b on h k =
      let (c', full, e, e') =
        check_limit-inv new_bucket l l' taguuid raw_ip true no_ss_udp true now b k in
      let same : c' ≡ c = ground (arith, e, h) in
      let kept =
        check_admitted-conn_limiter (record l { conn_limiter = c' }) taguuid
          (trim_prefix raw_ip "::ffff:") no_ss_udp now full in
      let there : l'.conn_limiter ≡ c =
        ap (λ (v : Verdict B). v.0.conn_limiter) (sym e') ∙ kept ∙ same in
      rw there (admitted-count_of l.conn_limiter c taguuid _ now on h)

  pub check_user-info :
      (l : Limiter B) (taguuid ip : String) (no_ss_udp : Bool) (now : ℕ) (u : UserLimitInfo)
      → (check_user new_bucket l taguuid ip no_ss_udp now u).0.user_limit_info
        ≡ refresh l.user_limit_info taguuid u now
  unfolding check_user finish take_bucket
  check_user-info l taguuid ip no_ss_udp now u = ground arith

  pub refresh-expired :
      (m : Map String UserLimitInfo) (taguuid : String) (u : UserLimitInfo) (now : ℕ)
      → expired u now ≡ true
      → u.speed_limit ≡ 0
      → lookup taguuid (refresh m taguuid u now) ≡ none
  unfolding refresh
  refresh-expired m taguuid u now h k = ground (arith, lookup-erase_self taguuid m)
