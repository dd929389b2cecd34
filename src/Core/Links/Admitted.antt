-- ===== src/Core/Links/Admitted.antt =====
-- What a link takes of the limiter when it is admitted, and what its close gives back
-- (core/xray/app/dispatcher, limiter/limiter.go, limiter/conn.go).
use yunzes_node.Base.{
  ℕ, ◌≡◌, sym, ap, ◌∙◌, inl, inr, String, Bool, true, false, Option, some, ◌==◌, lookup, insert,
  nat_eq, string_eq, ok, arith, trim_prefix, Option-cases, Bool-cases, Returns, subst,
  lookup-insert_self,
}
use yunzes_node.Limiter.Conn.{ConnLimiter, add_conn_count, del_conn_count}
use yunzes_node.Limiter.Conn.Bounds.{IsBounded, add_conn_count-IsBounded}
use yunzes_node.Limiter.Conn.Pairing.{SameView, add_conn_count-del_conn_count}
use yunzes_node.Limiter.State.{Limiter}
use yunzes_node.Limiter.Check.{Verdict, check_admitted, check_limit}
use yunzes_node.Limiter.Check.Verdict.{check_limit-inv}
use yunzes_node.Limiter.Check.Effects.{check_admitted-conn_limiter}
use yunzes_node.Core.Links.{
  Writer, Dispatcher, Inbound, manager_for, release_for, new_writer, add_link, count_for, manage,
  admit, get_link, remove_writer, release_slots, close_writer,
}

module _ {B : Type 0} (new_bucket : ℕ → B) where
  -- What CheckLimit has asked of the connection limiter, for an admitted connection.
  admitted_conn :
      (l l' : Limiter B) (user address : String) (is_tcp source_tcp : Bool) (now : ℕ) (b : Option B)
      → trim_prefix address "::ffff:" ≡ address
      → check_limit new_bucket l user address is_tcp source_tcp now ≡ some (l', b, false)
      → add_conn_count l.conn_limiter user address is_tcp now ≡ some (l'.conn_limiter, false)
  unfolding check_admitted
  admitted_conn l l' user address is_tcp source_tcp now b plain h =
      let (c, full, e, e') =
        check_limit-inv new_bucket l l' user address is_tcp source_tcp false now b h in
      let kept =
        check_admitted-conn_limiter new_bucket (record l { conn_limiter = c }) user
          (trim_prefix address "::ffff:") source_tcp now full in
      let there : l'.conn_limiter ≡ c = ap (λ (v : Verdict B). v.0.conn_limiter) (sym e') ∙ kept in
      let free : full ≡ false = ground (arith, e') in
      let asked : add_conn_count l.conn_limiter user address is_tcp now ≡ some (c, full) =
        subst (λ a. add_conn_count l.conn_limiter user a is_tcp now ≡ some (c, full)) plain e in
      ground (arith, asked, free, there)

  -- How a link that was admitted with a writer came about.
  admit-inv :
      (d d' : Dispatcher B) (i : Inbound) (is_tcp listed : Bool) (now w : ℕ)
      → admit new_bucket d i is_tcp listed now ≡ some (d', ok (some w))
      → (n : ℕ) × (l : Limiter B) × (l' : Limiter B) × (b : Option B) × (lookup i.tag d.registry
          ≡ some n)
        × (lookup n d.limiters ≡ some l)
        × (check_limit new_bucket l i.user i.address is_tcp i.source_tcp now ≡ some (l', b, false))
        × (manage (record d { limiters = insert n l' d.limiters }) l' n i is_tcp listed ≡ (d', w))
  unfolding admit
  admit-inv d d' i is_tcp listed now w h = elim (Bool-cases (i.user == "")) [
    | inl e ↦ absurd (ground (arith, e, h))
    | inr e ↦ elim (Option-cases (lookup i.tag d.registry)) [
      | inl f ↦ absurd (ground (arith, e, f, h))
      | inr (n, f) ↦ elim (Option-cases (lookup n d.limiters)) [
        | inl g ↦ absurd (ground (arith, e, f, g, h))
        | inr (l, g) ↦
            elim (Option-cases
              (check_limit new_bucket l i.user i.address is_tcp i.source_tcp now)) [
                | inl k ↦ absurd (ground (arith, e, f, g, k, h))
                | inr ((l', b, true), k) ↦ absurd (ground (arith, e, f, g, k, h))
                | inr ((l', b, false), k) ↦ (n, l, l', b, f, g, k, ground (arith, e, f, g, k, h))
              ]
      ]
    ]
  ]

module _ {B : Type 0} where
  manager_for-limiters :
      (d : Dispatcher B) (user : String) → (manager_for d user).0.limiters ≡ d.limiters
  unfolding manager_for
  manager_for-limiters d user = ground arith

  -- The writer of a new link, and the limiters, which it leaves.
  manage_lem :
      (d : Dispatcher B) (l : Limiter B) (n : ℕ) (i : Inbound) (is_tcp listed : Bool)
      → let (d', w) = manage d l n i is_tcp listed in
        (d'.limiters ≡ d.limiters)
        × ((m : ℕ) × (lookup w d'.writers
              ≡ some (record {
                manager = m;
                user = i.user;
                address = i.address;
                limiter = release_for l n is_tcp;
                released = false;
                closed = 0;
              })))
  unfolding manage new_writer add_link count_for
  manage_lem d l n i is_tcp listed =
      let (d1, m) = manager_for d i.user in
      let x : Writer = record {
        manager = m;
        user = i.user;
        address = i.address;
        limiter = release_for l n is_tcp;
        released = false;
        closed = 0;
      } in
      let kept = manager_for-limiters d i.user in
      let there = lookup-insert_self d1.next x d1.writers in
      elim (Bool-cases listed) [ inl e ↦ rw e (kept, (m, there)) | inr e ↦ rw e (kept, (m, there)) ]

  -- The close of a writer that has not been closed, in a limiter that returns.
  close_releases :
      (P : ConnLimiter → Type 0) (d : Dispatcher B) (w m n : ℕ) (l : Limiter B)
      (user address : String)
      → lookup w d.writers
        ≡ some (record {
          manager = m;
          user = user;
          address = address;
          limiter = some n;
          released = false;
          closed = 0;
        })
      → lookup n d.limiters ≡ some l
      → Returns P (del_conn_count l.conn_limiter user address)
      → Returns
          (λ d'. (l' : Limiter B) × (lookup n d'.limiters ≡ some l') × P l'.conn_limiter)
          (close_writer d w)
  unfolding close_writer release_slots remove_writer
  close_releases P d w m n l user address e f h =
      elim (Option-cases (del_conn_count l.conn_limiter user address)) [
        | inl g ↦ absurd (rw g at h)
        | inr (c, g) ↦
            let l' : Limiter B = record l { conn_limiter = c } in
            rw (e, f, g, close_writer, release_slots)
              (l', lookup-insert_self n l' d.limiters, rw g at h)
      ]

module _ {B : Type 0} (new_bucket : ℕ → B) where
  release_for-realtime :
      (conn ip : ℕ) (l l' : Limiter B) (n now : ℕ) (user address : String)
      → IsBounded conn ip true l.conn_limiter
      → add_conn_count l.conn_limiter user address true now ≡ some (l'.conn_limiter, false)
      → release_for l' n true ≡ some n
  unfolding release_for
  release_for-realtime conn ip l l' n now user address b h =
      let kept = add_conn_count-IsBounded conn ip true l.conn_limiter b user address true now in
      let live : l'.conn_limiter.realtime ≡ true = (rw h at kept).same_mode in ground (arith, live)

  -- If the inbound's limiter is a realtime one whose connection limiter satisfies its invariant,
  -- and its address is printed without an IPv4-mapping prefix, then for a TCP link that is admitted
  -- with a writer, the close of that writer returns, and in the same limiter every count and every
  -- IP entry is then as before the admission.
  pub get_link-close_writer :
      (conn ip : ℕ) (d d' : Dispatcher B) (i : Inbound) (now n w : ℕ) (l : Limiter B)
      → lookup i.tag d.registry ≡ some n
      → lookup n d.limiters ≡ some l
      → IsBounded conn ip true l.conn_limiter
      → trim_prefix i.address "::ffff:" ≡ i.address
      → get_link new_bucket d i true now ≡ some (d', ok (some w))
      → Returns
          (λ d''.
            (l'' : Limiter B) × (lookup n d''.limiters ≡ some l'')
            × SameView l''.conn_limiter l.conn_limiter)
          (close_writer d' w)
  unfolding get_link
  get_link-close_writer conn ip d d' i now n w l f g b plain h =
      let (n', k, l', bucket, f', g', e, made) = admit-inv new_bucket d d' i true true now w h in
      let same_n : n' ≡ n = ground (arith, f, f') in
      let same_l : k ≡ l = ground (arith, same_n, g, g') in
      let added : add_conn_count l.conn_limiter i.user i.address true now
          ≡ some (l'.conn_limiter, false) =
        subst
          (λ x.
            add_conn_count x.conn_limiter i.user i.address true now ≡ some (l'.conn_limiter, false))
          same_l
          (admitted_conn new_bucket k l' i.user i.address true i.source_tcp now bucket plain e) in
      let due = release_for-realtime conn ip l l' n' now i.user i.address b added in
      let undone =
        add_conn_count-del_conn_count conn ip l.conn_limiter l'.conn_limiter i.user i.address now b
          added in
      let d1 : Dispatcher B = record d { limiters = insert n' l' d.limiters } in
      let (kept, (m, there)) = manage_lem d1 l' n' i true true in
      let held : lookup n' (manage d1 l' n' i true true).0.limiters ≡ some l' =
        rw kept (lookup-insert_self n' l' d.limiters) in
      let found =
        subst
          (λ r.
            lookup r.1 r.0.writers
            ≡ some (record {
              manager = m;
              user = i.user;
              address = i.address;
              limiter = release_for l' n' true;
              released = false;
              closed = 0;
            }))
          made there in
      subst
        (λ x.
          Returns
            (λ d''.
              (l'' : Limiter B) × (lookup x d''.limiters ≡ some l'')
              × SameView l''.conn_limiter l.conn_limiter)
            (close_writer d' w))
        same_n
        (close_releases (λ c. SameView c l.conn_limiter) d' w m n' l' i.user i.address
          (rw due at found) (subst (λ r. lookup n' r.0.limiters ≡ some l') made held) undone)
