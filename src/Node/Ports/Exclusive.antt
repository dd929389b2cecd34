-- ===== src/Node/Ports/Exclusive.antt =====
-- The invariant of the listener registry (node/port_registry.go): what is registered belongs to a
-- registered runtime key, and listeners of different keys do not conflict.
use yunzes_node.Base.{
  ◌≡◌, refl, ◌≢◌, ◌⊎◌, inl, inr, String, Bool, false, none, some, List, [], ◌∷◌, ◌++◌, filter, ◌==◌,
  Map, lookup, insert, string_eq, nat_eq, Result, ok, err, All, All-append, All-filter, All-mono,
  Values, Values-insert, Bool-cases, Option-cases, arith, eq_iff, lookup-insert, sym, ap, ◌∙◌,
}
use yunzes_node.Node.Ports.{
  ListenerSpec, ListenerOwner, PortRegistry, new_port_registry, ReserveError, specific_v4,
  listener_conflict, normalized, find_conflict, first_conflict, owners, commit, reserve,
}

==_comm : (a b : String) → (a == b) ≡ (b == a)
==_comm a b = ground (arith, eq_iff a b, eq_iff b a)

-- The conflict test does not depend on the order of the two listeners.
pub listener_conflict_comm : (a b : ListenerSpec) → listener_conflict a b ≡ listener_conflict b a
unfolding listener_conflict specific_v4
listener_conflict_comm a b = ground (arith, ==_comm a.transport b.transport, ==_comm a.addr b.addr)

-- Two entries may stand side by side.
abbrev pub Apart : ListenerOwner → ListenerOwner → Type 0
Apart d e = (d.runtime_key ≡ e.runtime_key) ⊎ (listener_conflict d.spec e.spec ≡ false)

abbrev pub AllApart : List ListenerOwner → Type 0
AllApart [] = Unit
AllApart (e ∷ es) = All (Apart e) es × AllApart es

abbrev pub Registered : PortRegistry → String → Type 0
Registered r rk = lookup rk r.runtime_keys ≡ some tt

-- No runtime key has two logical tags.
abbrev pub OneTag : Map String String → Type 0
OneTag [] = Unit
OneTag ((tag, rk) ∷ m) = Values (λ k. k ≢ rk) m × OneTag m

pub record IsExclusive (r : PortRegistry) : Type 0 where
  pub owned : All (λ e. Registered r e.runtime_key) r.listeners
  pub tagged : Values (Registered r) r.logical_tags
  pub one_tag : OneTag r.logical_tags
  pub apart : AllApart r.listeners

pub new_port_registry-IsExclusive : IsExclusive new_port_registry
unfolding new_port_registry
new_port_registry-IsExclusive = record { owned = tt; tagged = tt; one_tag = tt; apart = tt }

AllApart-append :
    (xs ys : List ListenerOwner)
    → AllApart xs
    → AllApart ys
    → All (λ x. All (Apart x) ys) xs
    → AllApart (xs ++ ys)
AllApart-append [] ys h k c = k
AllApart-append (x ∷ xs) ys h k c =
    (All-append (Apart x) xs ys h.0 c.0, AllApart-append xs ys h.1 k c.1)

pub AllApart-filter :
    (p : ListenerOwner → Bool) (xs : List ListenerOwner) → AllApart xs → AllApart (filter p xs)
AllApart-filter p [] h = tt
AllApart-filter p (x ∷ xs) h = elim (Bool-cases (p x)) [
  | inl e ↦ rw e (All-filter p (Apart x) xs h.0, AllApart-filter p xs h.1)
  | inr e ↦ rw e (AllApart-filter p xs h.1)
]

-- The listeners of one reservation all have its key.
All-owners :
    (P : ListenerOwner → Type 0) (rk tag : String) (specs : List ListenerSpec)
    → ((s : ListenerSpec) → P (record { spec = s; runtime_key = rk; logical_tag = tag }))
    → All P (owners rk tag specs)
unfolding owners
All-owners P rk tag [] h = tt
All-owners P rk tag (s ∷ ss) h = (h (normalized s), All-owners P rk tag ss h)

AllApart-owners : (rk tag : String) (specs : List ListenerSpec) → AllApart (owners rk tag specs)
unfolding owners
AllApart-owners rk tag [] = tt
AllApart-owners rk tag (s ∷ ss) =
    let first : ListenerOwner = record {
      spec = normalized s;
      runtime_key = rk;
      logical_tag = tag;
    } in
    (All-owners (Apart first) rk tag ss (λ t. inl refl), AllApart-owners rk tag ss)

-- A search that finds no conflict has compared every listener.
find_conflict-none :
    (s : ListenerSpec) (es : List ListenerOwner)
    → find_conflict s es ≡ none
    → All (λ e. listener_conflict s e.spec ≡ false) es
unfolding find_conflict
find_conflict-none s [] h = tt
find_conflict-none s (e ∷ es) h = elim (Bool-cases (listener_conflict s e.spec)) [
  | inl c ↦ absurd (ground arith)
  | inr c ↦ (c, find_conflict-none s es (ground arith))
]

first_conflict-none :
    (rk tag : String) (specs : List ListenerSpec) (es : List ListenerOwner)
    → first_conflict specs es ≡ none
    → All (λ n. All (λ e. listener_conflict n.spec e.spec ≡ false) es) (owners rk tag specs)
unfolding first_conflict owners
first_conflict-none rk tag [] es h = tt
first_conflict-none rk tag (s ∷ ss) es h = elim (Option-cases (find_conflict (normalized s) es)) [
  | inl e ↦
      (find_conflict-none (normalized s) es e, first_conflict-none rk tag ss es (ground arith))
  | inr (x, e) ↦ absurd (ground arith)
]

-- From "new against old" to "old against new".
All-swap {ℓ κ} :
    {A : Type ℓ} {B : Type κ} (P : A → B → Type 0) (xs : List A) (ys : List B)
    → All (λ y. All (λ x. P x y) xs) ys
    → All (λ x. All (P x) ys) xs
All-swap P [] ys h = tt
All-swap P (x ∷ xs) ys h = (
  All-mono (λ y. All (λ a. P a y) (x ∷ xs)) (P x) ys (λ y k. k.0) h,
  All-swap P xs ys
      (All-mono (λ y. All (λ a. P a y) (x ∷ xs)) (λ y. All (λ a. P a y) xs) ys (λ y k. k.1) h),
)

OneTag-insert :
    (tag rk : String) (m : Map String String)
    → lookup tag m ≡ none
    → Values (λ k. k ≢ rk) m
    → OneTag m
    → OneTag (insert tag rk m)
unfolding insert lookup
OneTag-insert tag rk [] h k o = (tt, tt)
OneTag-insert tag rk ((t, j) ∷ m) h k o = elim (Bool-cases (t == tag)) [
  | inl e ↦ absurd (ground arith)
  | inr e ↦ rw e (
    Values-insert (λ i. i ≢ j) tag rk m o.0 (λ q. k.0 (sym q)),
    OneTag-insert tag rk m (ground arith) k.1 o.1,
  )
]

pub unregistered :
    (r : PortRegistry) (rk : String) (m : Map String String)
    → lookup rk r.runtime_keys ≡ none
    → Values (Registered r) m
    → Values (λ k. k ≢ rk) m
unregistered r rk m e h =
    All-mono (λ x. Registered r x.1) (λ x. x.1 ≢ rk) m
      (λ x k q.
        let same = ap (λ (i : String). lookup i r.runtime_keys) q in
        absurd (ground (arith, k, same, e)))
      h

module _ (r : PortRegistry) (v : IsExclusive r) (rk tag : String) (specs : List ListenerSpec) where
  still_Registered : (k : String) → Registered r k → Registered (commit r rk tag specs) k
  unfolding commit
  still_Registered k h = ground (arith, lookup-insert rk k tt r.runtime_keys)

  now_Registered : Registered (commit r rk tag specs) rk
  unfolding commit
  now_Registered = ground (arith, lookup-insert rk rk tt r.runtime_keys, eq_iff rk rk)

  commit-IsExclusive :
      lookup rk r.runtime_keys ≡ none
      → lookup tag r.logical_tags ≡ none
      → first_conflict specs r.listeners ≡ none
      → IsExclusive (commit r rk tag specs)
  unfolding commit
  commit-IsExclusive f g h =
      let clear = first_conflict-none rk tag specs r.listeners h in
      record {
        owned =
            All-append _ r.listeners (owners rk tag specs)
              (All-mono (λ e. Registered r e.runtime_key) _ r.listeners
                (λ e k. still_Registered e.runtime_key k) v.owned)
              (All-owners _ rk tag specs (λ s. now_Registered));
        tagged =
            Values-insert (Registered (commit r rk tag specs)) tag rk r.logical_tags
              (All-mono (λ e. Registered r e.1) _ r.logical_tags (λ e k. still_Registered e.1 k)
                v.tagged)
              now_Registered;
        one_tag =
            OneTag-insert tag rk r.logical_tags g (unregistered r rk r.logical_tags f v.tagged)
              v.one_tag;
        apart =
            AllApart-append r.listeners (owners rk tag specs) v.apart (AllApart-owners rk tag specs)
              (All-swap Apart r.listeners (owners rk tag specs) (
                All-mono _ _ (owners rk tag specs)
                  (λ n k.
                    All-mono _ _ r.listeners (λ e c. inr (listener_conflict_comm e.spec n.spec ∙ c))
                      k)
                  clear));
      }

-- The registry after a reservation, as the caller goes on with it.
abbrev pub after_reserve : PortRegistry → Result ReserveError PortRegistry → PortRegistry
after_reserve r (ok r') = r'
after_reserve r (err e) = r

-- A reservation on a registry that satisfies the invariant keeps it, whether it succeeds or
-- fails.
pub reserve-IsExclusive :
    (r : PortRegistry) (rk tag : String) (specs : List ListenerSpec)
    → IsExclusive r
    → IsExclusive (after_reserve r (reserve r rk tag specs))
unfolding reserve
reserve-IsExclusive r rk tag specs v = elim (Option-cases (lookup rk r.runtime_keys)) [
  | inr (_, e) ↦ rw (e, reserve) v
  | inl e ↦
      rw (e, reserve)
        (elim (Option-cases (lookup tag r.logical_tags)) [
          | inr (_, e') ↦ rw e' v
          | inl e' ↦ rw e' (elim (Option-cases (first_conflict specs r.listeners)) [
            | inr (_, e'') ↦ rw e'' v
            | inl e'' ↦ rw e'' (commit-IsExclusive r v rk tag specs e e' e'')
          ])
        ])
]
