-- ===== src/Node/Ports/Release.antt =====
-- Releasing a runtime key (node/port_registry.go): the invariant stays, and a reservation is undone.
use yunzes_node.Base.{
  ◌≡◌, refl, ◌≢◌, inl, inr, String, true, not, none, some, List, [], ◌∷◌, ◌++◌, filter, ◌==◌, Map,
  lookup, insert, erase, string_eq, ok, All, All-mono, All-both, append-nil, All-filter,
  All-filter_self, filter-append, Values, Values-erase, Bool-cases, Option-cases, arith, eq_iff,
  lookup-insert, lookup-erase, sym, ap, ◌∙◌, lookup-insert_self, erase-insert,
}
use yunzes_node.Node.Ports.{
  ListenerSpec, ListenerOwner, PortRegistry, owners, commit, reserve, tag_of, drop_tag, release,
  first_conflict,
}
use yunzes_node.Node.Ports.Exclusive.{
  IsExclusive, OneTag, Registered, AllApart-filter, unregistered,
}

tag_of-none : (rk : String) (m : Map String String) → tag_of rk m ≡ none → Values (λ k. k ≢ rk) m
unfolding tag_of
tag_of-none rk [] h = tt
tag_of-none rk ((t, o) ∷ m) h = elim (Bool-cases (o == rk)) [
  | inl e ↦ absurd (ground arith)
  | inr e ↦ (λ q. absurd (ground (arith, e, (eq_iff o rk).1 q)), tag_of-none rk m (ground arith))
]

OneTag-erase : (tag : String) (m : Map String String) → OneTag m → OneTag (erase tag m)
unfolding erase
OneTag-erase tag [] o = tt
OneTag-erase tag ((t, j) ∷ m) o = elim (Bool-cases (t == tag)) [
  | inl e ↦ rw e (OneTag-erase tag m o.1)
  | inr e ↦ rw e (Values-erase (λ i. i ≢ j) tag m o.0, OneTag-erase tag m o.1)
]

-- Once the tag is dropped, no entry is left for the key.
erase-tag_of :
    (rk tag : String) (m : Map String String)
    → OneTag m
    → tag_of rk m ≡ some tag
    → Values (λ k. k ≢ rk) (erase tag m)
unfolding tag_of erase
erase-tag_of rk tag [] o h = tt
erase-tag_of rk tag ((t, j) ∷ m) o h = elim (Bool-cases (j == rk)) [
  | inl e ↦
      let own : t ≡ tag = ground arith in
      let hit : (t == tag) ≡ true = (eq_iff t tag).1 own in
      let others =
        All-mono (λ x. x.1 ≢ j) (λ x. x.1 ≢ rk) m (λ x k q. k (q ∙ sym ((eq_iff j rk).0 e))) o.0 in
      rw hit (Values-erase (λ k. k ≢ rk) tag m others)
  | inr e ↦
      let rest = erase-tag_of rk tag m o.1 (ground arith) in
      elim (Bool-cases (t == tag)) [
        | inl hit ↦ rw hit rest
        | inr miss ↦ rw miss (λ q. absurd (ground (arith, e, (eq_iff j rk).1 q)), rest)
      ]
]

drop_tag_lem :
    (P : String → Type 0) (rk : String) (m : Map String String)
    → OneTag m
    → Values P m
    → Values (λ k. k ≢ rk) (drop_tag rk m) × Values P (drop_tag rk m) × OneTag (drop_tag rk m)
unfolding drop_tag
drop_tag_lem P rk m o h = elim (Option-cases (tag_of rk m)) [
  | inl e ↦ rw (e, drop_tag) (tag_of-none rk m e, h, o)
  | inr (t, e) ↦
      rw (e, drop_tag) (erase-tag_of rk t m o e, Values-erase P t m h, OneTag-erase t m o)
]

Registered-erase :
    (r : PortRegistry) (rk k : String)
    → k ≢ rk
    → Registered r k
    → lookup k (erase rk r.runtime_keys) ≡ some tt
Registered-erase r rk k n h = ground (arith, lookup-erase rk k r.runtime_keys, eq_iff rk k)

released-IsExclusive :
    (r : PortRegistry) (rk : String)
    → IsExclusive r
    → IsExclusive (record {
      listeners = filter (λ e. not (e.runtime_key == rk)) r.listeners;
      logical_tags = drop_tag rk r.logical_tags;
      runtime_keys = erase rk r.runtime_keys;
    })
released-IsExclusive r rk v =
    let keep = λ (e : ListenerOwner). not (e.runtime_key == rk) in
    let (others, tagged, one) = drop_tag_lem (Registered r) rk r.logical_tags v.one_tag v.tagged in
    record {
      owned =
          All-mono _ _ (filter keep r.listeners)
            (λ e h.
              Registered-erase r rk e.runtime_key
                (λ q. absurd (ground (arith, h.1, (eq_iff e.runtime_key rk).1 q))) h.0)
            (All-both (λ e. Registered r e.runtime_key) (λ e. keep e ≡ true)
              (filter keep r.listeners)
              (All-filter keep (λ e. Registered r e.runtime_key) r.listeners v.owned)
              (All-filter_self keep r.listeners));
      tagged =
          All-mono _ _ (drop_tag rk r.logical_tags) (λ x h. Registered-erase r rk x.1 h.0 h.1)
            (All-both (λ x. x.1 ≢ rk) (λ x. Registered r x.1) (drop_tag rk r.logical_tags) others
              tagged);
      one_tag = one;
      apart = AllApart-filter keep r.listeners v.apart;
    }

-- A release on a registry that satisfies the invariant keeps it: listeners of different keys do
-- not conflict, and every listener and tag belongs to a registered key.
pub release-IsExclusive :
    (r : PortRegistry) (rk : String) → IsExclusive r → IsExclusive (release r rk)
unfolding release
release-IsExclusive r rk v = elim (Option-cases (lookup rk r.runtime_keys)) [
  | inl e ↦ rw (e, release) v
  | inr (_, e) ↦ rw (e, release) (released-IsExclusive r rk v)
]

-- Two registries hold the same listeners, and the same tags and keys.
pub record SameRegistry (r s : PortRegistry) : Type 0 where
  pub same_listeners : r.listeners ≡ s.listeners
  pub same_tags : (tag : String) → lookup tag r.logical_tags ≡ lookup tag s.logical_tags
  pub same_keys : (k : String) → lookup k r.runtime_keys ≡ lookup k s.runtime_keys

filter-All :
    (rk : String) (es : List ListenerOwner)
    → All (λ e. e.runtime_key ≢ rk) es
    → filter (λ e. not (e.runtime_key == rk)) es ≡ es
filter-All rk [] h = refl
filter-All rk (e ∷ es) h = ground (arith, h.0, filter-All rk es h.1, eq_iff e.runtime_key rk)

filter-owners :
    (rk tag : String) (specs : List ListenerSpec)
    → filter (λ e. not (e.runtime_key == rk)) (owners rk tag specs) ≡ []
unfolding owners
filter-owners rk tag [] = refl
filter-owners rk tag (s ∷ ss) = ground (arith, filter-owners rk tag ss, eq_iff rk rk)

tag_of-insert :
    (rk tag : String) (m : Map String String)
    → lookup tag m ≡ none
    → Values (λ k. k ≢ rk) m
    → tag_of rk (insert tag rk m) ≡ some tag
unfolding tag_of insert lookup
tag_of-insert rk tag [] h k = ground (arith, eq_iff rk rk)
tag_of-insert rk tag ((t, j) ∷ m) h k =
    ground (arith, k.0, eq_iff j rk, tag_of-insert rk tag m, k.1)

commit-release :
    (r : PortRegistry) (rk tag : String) (specs : List ListenerSpec)
    → IsExclusive r
    → lookup rk r.runtime_keys ≡ none
    → lookup tag r.logical_tags ≡ none
    → SameRegistry (release (commit r rk tag specs) rk) r
unfolding release commit drop_tag
commit-release r rk tag specs v f g =
    let others = unregistered r rk r.logical_tags f v.tagged in
    let own : lookup rk (insert rk tt r.runtime_keys) ≡ some tt =
      lookup-insert_self rk tt r.runtime_keys in
    let keep = λ (e : ListenerOwner). not (e.runtime_key == rk) in
    let strangers =
      All-mono (λ e. Registered r e.runtime_key) (λ e. e.runtime_key ≢ rk) r.listeners
        (λ e k q.
          let same = ap (λ (i : String). lookup i r.runtime_keys) q in
          absurd (ground (arith, k, same, f)))
        v.owned in
    rw (own, release)
      (record {
        same_listeners =
            filter-append keep r.listeners (owners rk tag specs)
            ∙ ap (λ l. l ++ filter keep (owners rk tag specs)) (filter-All rk r.listeners strangers)
            ∙ ap (λ l. r.listeners ++ l) (filter-owners rk tag specs)
            ∙ append-nil r.listeners;
        same_tags = λ t. ground (
          arith,
          tag_of-insert rk tag r.logical_tags g others,
          lookup-erase tag t (insert tag rk r.logical_tags),
          lookup-insert tag t rk r.logical_tags,
          eq_iff tag t,
        );
        same_keys = λ k. ground (
          arith,
          lookup-erase rk k (insert rk tt r.runtime_keys),
          lookup-insert rk k tt r.runtime_keys,
          eq_iff rk k,
        );
      })

pub reserve_ok :
    (r r' : PortRegistry) (rk tag : String) (specs : List ListenerSpec)
    → reserve r rk tag specs ≡ ok r'
    → (lookup rk r.runtime_keys ≡ none)
      × (lookup tag r.logical_tags ≡ none)
      × (first_conflict specs r.listeners ≡ none)
      × (r' ≡ commit r rk tag specs)
unfolding reserve
reserve_ok r r' rk tag specs h = ground arith

-- On a registry that satisfies the invariant, a reservation that succeeds and then the release
-- of its key leave the listeners, the tags and the keys as they were.
pub reserve-release :
    (r r' : PortRegistry) (rk tag : String) (specs : List ListenerSpec)
    → IsExclusive r
    → reserve r rk tag specs ≡ ok r'
    → SameRegistry (release r' rk) r
reserve-release r r' rk tag specs v h =
    let (f, g, _, e) = reserve_ok r r' rk tag specs h in rw e (commit-release r rk tag specs v f g)

commit-release_eq :
    (r : PortRegistry) (rk tag : String) (specs : List ListenerSpec)
    → IsExclusive r
    → lookup rk r.runtime_keys ≡ none
    → lookup tag r.logical_tags ≡ none
    → release (commit r rk tag specs) rk ≡ r
unfolding release commit drop_tag
commit-release_eq r rk tag specs v f g =
    let own : lookup rk (insert rk tt r.runtime_keys) ≡ some tt =
      lookup-insert_self rk tt r.runtime_keys in
    let same = (commit-release r rk tag specs v f g).same_listeners in
    let tagged =
      tag_of-insert rk tag r.logical_tags g (unregistered r rk r.logical_tags f v.tagged) in
    ground (
      arith,
      own,
      same,
      tagged,
      erase-insert tag rk r.logical_tags g,
      erase-insert rk tt r.runtime_keys f,
    )

-- The registry is the very same, its entries in their order.
pub reserve-release_eq :
    (r r' : PortRegistry) (rk tag : String) (specs : List ListenerSpec)
    → IsExclusive r
    → reserve r rk tag specs ≡ ok r'
    → release r' rk ≡ r
reserve-release_eq r r' rk tag specs v h =
    let (f, g, _, e) = reserve_ok r r' rk tag specs h in
    rw e (commit-release_eq r rk tag specs v f g)
