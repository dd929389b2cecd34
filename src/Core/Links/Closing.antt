-- ===== src/Core/Links/Closing.antt =====
-- A second close of a managed writer, and a link that is refused (core/xray/app/dispatcher).
use yunzes_node.Base.{
  ℕ, ◌+◌, ◌≡◌, ◌≢◌, refl, inl, inr, Bool, true, false, Option, none, some, ◌==◌, lookup, nat_eq,
  string_eq, Result, ok, err, arith, Option-cases, Bool-cases, Returns, eq_iff, lookup-insert_self,
}
use yunzes_node.Limiter.Conn.Bounds.{IsBounded}
use yunzes_node.Limiter.Check.Effects.{check_limit-IsBounded}
use yunzes_node.Limiter.State.{Limiter}
use yunzes_node.Limiter.Check.{check_limit}
use yunzes_node.Core.Links.{
  Writer, Dispatcher, LinkError, Inbound, admit, remove_writer, release_slots, close_writer,
}

module _ {B : Type 0} where
  -- Nothing that a refused link could have made is there.
  abbrev pub RefusedCleanly :
      Dispatcher B → Inbound → Dispatcher B × Result LinkError (Option ℕ) → Type 0
  RefusedCleanly d i (d', ok link) = Unit
  RefusedCleanly d i (d', err e) =
      (i.user ≢ "")
      × (d'.managers ≡ d.managers)
      × (d'.links ≡ d.links)
      × (d'.writers ≡ d.writers)
      × (d'.counters ≡ d.counters)
      × (lookup i.tag d.registry ≡ none → d' ≡ d)

  closed_once :
      (d d' : Dispatcher B) (id : ℕ)
      → close_writer d id ≡ some d'
      → (x : Writer) × (lookup id d'.writers ≡ some x) × (x.released ≡ true)
  unfolding close_writer
  closed_once d d' id h = elim (Option-cases (lookup id d.writers)) [
    | inl e ↦ absurd (ground (arith, e, h))
    | inr (w, e) ↦ elim (Option-cases (release_slots (remove_writer d w.manager id) w)) [
      | inl f ↦ absurd (ground (arith, e, f, h))
      | inr (d1, f) ↦
          let y : Writer = record w { released = true; closed = w.closed + 1 } in
          (y, ground (arith, e, f, h, lookup-insert_self id y d1.writers), refl)
    ]
  ]

  released_slots : (d : Dispatcher B) (w : Writer) → w.released ≡ true → release_slots d w ≡ some d
  unfolding release_slots
  released_slots d w h = elim (Option-cases w.limiter) [
    | inl e ↦ rw (e, release_slots) refl
    | inr (n, e) ↦ rw (e, release_slots, h) refl
  ]

  -- After a close, a second close of the same writer returns, and takes nothing more from any
  -- limiter.
  pub close_writer_again :
      (d d' : Dispatcher B) (id : ℕ)
      → close_writer d id ≡ some d'
      → Returns (λ d''. d''.limiters ≡ d'.limiters) (close_writer d' id)
  unfolding close_writer remove_writer
  close_writer_again d d' id h =
      let (x, e, f) = closed_once d d' id h in
      rw (e, close_writer, released_slots (remove_writer d' x.manager id) x f) refl

module _ {B : Type 0} (new_bucket : ℕ → B) where
  -- The inbound's limiter, if it has one, is there, and its connection limiter satisfies its
  -- invariant.
  abbrev pub IsServed : ℕ → ℕ → Bool → Dispatcher B → Inbound → Type 0
  IsServed conn ip realtime d i =
      (n : ℕ)
      → lookup i.tag d.registry ≡ some n
      → (l : Limiter B) × (lookup n d.limiters ≡ some l) × IsBounded conn ip realtime l.conn_limiter

  -- If the inbound's limiter satisfies its invariant, then the admission of a link returns; a link
  -- that is refused leaves no writer, no manager and no counter behind, only links of users with an
  -- email are refused, and a refusal for want of a limiter changes nothing at all.
  pub admit-RefusedCleanly :
      (conn ip : ℕ) (realtime : Bool) (d : Dispatcher B) (i : Inbound) (is_tcp listed : Bool)
      (now : ℕ)
      → IsServed conn ip realtime d i
      → Returns (RefusedCleanly d i) (admit new_bucket d i is_tcp listed now)
  unfolding admit
  admit-RefusedCleanly conn ip realtime d i is_tcp listed now sane =
      elim (Bool-cases (i.user == "")) [
        | inl e ↦ rw e tt
        | inr e ↦
            let named : i.user ≢ "" = λ f. absurd (ground (arith, e, eq_iff i.user "", f)) in
            elim (Option-cases (lookup i.tag d.registry)) [
              | inl f ↦ rw (e, f, admit) (named, refl, refl, refl, refl, λ _. refl)
              | inr (n, f) ↦
                  let (l, g, b) = sane n f in
                  let total =
                    check_limit-IsBounded new_bucket conn ip realtime l i.user i.address is_tcp
                      i.source_tcp now b in
                  elim (Option-cases
                    (check_limit new_bucket l i.user i.address is_tcp i.source_tcp now)) [
                      | inl k ↦ absurd (rw k at total)
                      | inr ((l', bucket, true), k) ↦
                          rw (e, f, g, k, admit)
                            (named, refl, refl, refl, refl, λ m. absurd (ground (arith, f, m)))
                      | inr ((l', bucket, false), k) ↦ rw (e, f, g, k, admit) tt
                    ]
            ]
      ]
