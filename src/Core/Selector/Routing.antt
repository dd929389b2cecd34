-- ===== src/Core/Selector/Routing.antt =====
-- Which core the Selector (core/selector.go) sends a node's calls to.
use yunzes_node.Base.{
  ◌≡◌, ◌≢◌, ◌↔◌, refl, sym, ap, subst, ◌∙◌, Distinct, List, ◌⊎◌, inl, inr, String, Bool, true,
  false, not, ◌&&◌, none, some, [], ◌∷◌, ◌==◌, any, Map, lookup, insert, string_eq, arith, eq_iff,
  lookup-insert_self, Option-cases, Bool-cases,
}
use yunzes_node.Panel.{NodeInfo}
use yunzes_node.Core.Interface.{VCore}
use yunzes_node.Core.Selector.{
  Selector, NodeOptions, Kind, validate_runtime_key, is_supported, fits, pick_fitting, pick,
  on_core, add_to, add_node, routed,
}

module _ {S : Type 0} (core : VCore S) (kind : Kind S) where
  -- Without a core type, the core has the node's type among its protocols; else it is of that type.
  abbrev pub Suits : NodeOptions → NodeInfo → S → Type 0
  Suits o n s =
      (o.core ≡ "") × (any (λ p. p == n.node_type) (kind.protocols s) ≡ true)
      ⊎ (o.core ≢ "") × (o.core ≡ kind.type_of s)

  is_supported-any : (t : String) (ps : List String) → is_supported t ps ≡ any (λ p. p == t) ps
  unfolding is_supported
  is_supported-any t [] = refl
  is_supported-any t (p ∷ ps) = ground (arith, is_supported-any t ps, eq_iff t p, eq_iff p t)

  fits_iff : (o : NodeOptions) (n : NodeInfo) (s : S) → (fits core kind o n s ≡ true) ↔ Suits o n s
  unfolding fits
  fits_iff o n s = ground (
    arith,
    is_supported-any n.node_type (kind.protocols s),
    eq_iff o.core "",
    eq_iff o.core (kind.type_of s),
  )

  pick_fitting-some :
      (o : NodeOptions) (n : NodeInfo) (m : Map String S) (key : String)
      → Distinct m
      → pick_fitting core kind o n m ≡ some key
      → (s : S) × (lookup key m ≡ some s) × Suits o n s
  unfolding pick_fitting lookup
  pick_fitting-some o n [] key d h = absurd (ground (arith, h))
  pick_fitting-some o n ((j, t) ∷ m) key (new, d) h =
      elim (Option-cases (pick_fitting core kind o n m)) [
        | inl e ↦ elim (Bool-cases (fits core kind o n t)) [
          | inl f ↦ (t, ground (arith, h, e, f, eq_iff j key), (fits_iff o n t).0 f)
          | inr f ↦ absurd (ground (arith, h, e, f))
        ]
        | inr (k, e) ↦
            let same : k ≡ key = ground (arith, h, e) in
            let (s, at, suits) = pick_fitting-some o n m key d (e ∙ ap some same) in
            (s, ground (arith, new, at, eq_iff j key), suits)
      ]

  pick_fitting-none :
      (o : NodeOptions) (n : NodeInfo) (m : Map String S) (key : String) (s : S)
      → pick_fitting core kind o n m ≡ none
      → lookup key m ≡ some s
      → Suits o n s
      → ⊥
  unfolding pick_fitting lookup
  pick_fitting-none o n [] key s h at suits = absurd (ground (arith, at))
  pick_fitting-none o n ((j, t) ∷ m) key s h at suits =
      elim (Option-cases (pick_fitting core kind o n m)) [
        | inr (k, e) ↦ absurd (ground (arith, h, e))
        | inl e ↦ elim (Bool-cases (j == key)) [
          | inl same ↦
              let first : t ≡ s = ground (arith, at, same) in
              absurd
                (ground (arith, h, e, (fits_iff o n t).1 (subst (Suits o n) (sym first) suits)))
          | inr other ↦ pick_fitting-none o n m key s e (ground (arith, at, other)) suits
        ]
      ]

  -- The node stands under the key of a core, which has taken it.
  abbrev pub RoutedTo : Selector S → Selector S → String → NodeInfo → String → Type 0
  RoutedTo sel sel' tag n key =
      (s : S) × (lookup key sel.cores ≡ some s)
      × ((core.add_node s tag (some n)).1 ≡ true)
      × (sel'.cores ≡ insert key (core.add_node s tag (some n)).0 sel.cores)
      × (sel'.nodes ≡ insert tag key sel.nodes)

  -- The core is the one that the options name, or, if they name none, it suits the node.
  abbrev pub Chosen : Selector S → NodeOptions → NodeInfo → String → Type 0
  Chosen sel o n key =
      (o.core_name ≢ "") × (key ≡ o.core_name)
      ⊎ (o.core_name ≡ "") × ((s : S) × (lookup key sel.cores ≡ some s) × Suits o n s)

  -- Why a node is refused.
  abbrev pub Refused : Selector S → String → NodeInfo → NodeOptions → Bool → Type 0
  Refused sel tag n o raw_ok =
      (validate_runtime_key tag ≡ none)
      ⊎ (o.core_name ≢ "") × (lookup o.core_name sel.cores ≡ none)
      ⊎ (o.core_name ≡ "")
        × ((key : String) (s : S) → lookup key sel.cores ≡ some s → Suits o n s → ⊥)
      ⊎ (o.core ≡ "") × (raw_ok ≡ false)
      ⊎ ((key : String) × Chosen sel o n key
          × ((s : S) × (lookup key sel.cores ≡ some s)
              × ((core.add_node s tag (some n)).1 ≡ false)))

  abbrev pub Added :
      Selector S → String → NodeInfo → NodeOptions → Bool → Selector S × Bool → Type 0
  Added sel tag n o raw_ok (sel', true) =
      (validate_runtime_key tag ≢ none)
      × ((o.core ≢ "") ⊎ (raw_ok ≡ true))
      × ((key : String) × Chosen sel o n key × RoutedTo sel sel' tag n key)
  Added sel tag n o raw_ok (sel', false) = (sel'.nodes ≡ sel.nodes) × Refused sel tag n o raw_ok

  pick-Chosen :
      (sel : Selector S) (o : NodeOptions) (n : NodeInfo) (key : String)
      → Distinct sel.cores
      → pick core kind o n sel.cores ≡ some key
      → Chosen sel o n key
  unfolding pick
  pick-Chosen sel o n key d h = elim (Bool-cases (o.core_name == "")) [
    | inl e ↦ inr ((eq_iff o.core_name "").0 e, pick_fitting-some o n sel.cores key d (rw e at h))
    | inr e ↦ inl (ground (arith, e, eq_iff o.core_name ""), ground (arith, e, h))
  ]

  -- A core that has been chosen is there, if it has not been named.
  missing-Refused :
      (sel : Selector S) (tag : String) (n : NodeInfo) (o : NodeOptions) (raw_ok : Bool)
      (key : String)
      → Chosen sel o n key
      → lookup key sel.cores ≡ none
      → Refused sel tag n o raw_ok
  missing-Refused sel tag n o raw_ok key (inl (named, same)) e =
      inr (inl (named, ap (λ k. lookup k sel.cores) (sym same) ∙ e))
  missing-Refused sel tag n o raw_ok key (inr (_, (s, at, _))) e = absurd (ground (arith, at, e))

  no_pick-Refused :
      (sel : Selector S) (tag : String) (n : NodeInfo) (o : NodeOptions) (raw_ok : Bool)
      → pick core kind o n sel.cores ≡ none
      → Refused sel tag n o raw_ok
  unfolding pick
  no_pick-Refused sel tag n o raw_ok h = elim (Bool-cases (o.core_name == "")) [
    | inl e ↦ inr (
        inr (
          inl (
            (eq_iff o.core_name "").0 e,
            λ key s. pick_fitting-none o n sel.cores key s (rw e at h),
          )))
    | inr e ↦ absurd (ground (arith, e, h))
  ]

  add_to-Added :
      (sel : Selector S) (tag : String) (n : NodeInfo) (o : NodeOptions) (raw_ok : Bool)
      (key : String)
      → validate_runtime_key tag ≢ none
      → (o.core ≢ "") ⊎ (raw_ok ≡ true)
      → Chosen sel o n key
      → Added sel tag n o raw_ok (add_to core kind sel tag n key)
  unfolding add_to on_core
  add_to-Added sel tag n o raw_ok key v w chosen = elim (Option-cases (lookup key sel.cores)) [
    | inl e ↦ rw (e, add_to, on_core) (refl, missing-Refused sel tag n o raw_ok key chosen e)
    | inr (s, e) ↦ elim (Bool-cases (core.add_node s tag (some n)).1) [
      | inl t ↦ rw (e, add_to, on_core, t) (v, w, (key, chosen, (s, e, t, refl, refl)))
      | inr f ↦ rw (e, add_to, on_core, f) (refl, inr (inr (inr (inr (key, chosen, (s, e, f))))))
    ]
  ]

  -- If each core has one name: an AddNode that succeeds has been given a valid runtime key and has
  -- added the node to the core that the options name, or, if they name none, to one that is of the
  -- options' type or, without such a type, supports the node's protocol; that core alone changes, and
  -- the node's key leads to it. An AddNode that fails leaves the nodes' keys as they were, and the key
  -- was invalid, or there is no core of that name, or none that suits, or the raw options, where they
  -- are needed, do not decode, or the chosen core has refused the node.
  pub add_node-Added :
      (sel : Selector S) (tag : String) (n : NodeInfo) (o : NodeOptions) (raw_ok : Bool)
      → Distinct sel.cores
      → Added sel tag n o raw_ok (add_node core kind sel tag n o raw_ok)
  unfolding add_node
  add_node-Added sel tag n o raw_ok d =
      let Good = Added sel tag n o raw_ok in
      let result = add_node core kind sel tag n o raw_ok in
      elim (Option-cases (validate_runtime_key tag)) [
        | inl e ↦
            let same : result ≡ (sel, false) = ground (arith, e) in
            subst Good (sym same) (refl, inl e)
        | inr (p, e) ↦
            let valid : validate_runtime_key tag ≢ none = λ q. absurd (ground (arith, e, q)) in
            elim (Option-cases (pick core kind o n sel.cores)) [
              | inl f ↦
                  let same : result ≡ (sel, false) = ground (arith, e, f) in
                  subst Good (sym same) (refl, no_pick-Refused sel tag n o raw_ok f)
              | inr (key, f) ↦
                  let chosen = pick-Chosen sel o n key d f in
                  elim (Bool-cases (o.core == "" && not raw_ok)) [
                    | inl g ↦
                        let same : result ≡ (sel, false) = ground (arith, e, f, g) in
                        let raw : (o.core ≡ "") × (raw_ok ≡ false) =
                          ground (arith, g, eq_iff o.core "") in
                        subst Good (sym same) (refl, inr (inr (inr (inl raw))))
                    | inr g ↦
                        let same : result ≡ add_to core kind sel tag n key =
                          ground (arith, e, f, g) in
                        let typed : (o.core ≢ "") ⊎ (raw_ok ≡ true) =
                          ground (arith, g, eq_iff o.core "") in
                        subst Good (sym same)
                          (add_to-Added sel tag n o raw_ok key valid typed chosen)
                  ]
            ]
      ]

  -- A call with an invalid key, or for a node that no core has, is refused and changes nothing.
  pub routed_unknown :
      (sel : Selector S) (tag : String) (f : S → S × Bool)
      → (validate_runtime_key tag ≡ none) ⊎ (lookup tag sel.nodes ≡ none)
      → routed core kind sel tag f ≡ (sel, false)
  unfolding routed
  routed_unknown sel tag f (inl e) = ground (arith, e)
  routed_unknown sel tag f (inr e) = elim (Option-cases (validate_runtime_key tag)) [
    | inl v ↦ ground (arith, v)
    | inr (p, v) ↦ ground (arith, v, e)
  ]

  routed_known :
      (sel : Selector S) (tag key : String) (f : S → S × Bool) (s : S)
      → validate_runtime_key tag ≢ none
      → lookup tag sel.nodes ≡ some key
      → lookup key sel.cores ≡ some s
      → routed core kind sel tag f ≡ (record sel { cores = insert key (f s).0 sel.cores }, (f s).1)
  unfolding routed on_core
  routed_known sel tag key f s v e k = elim (Option-cases (validate_runtime_key tag)) [
    | inl w ↦ absurd (v w)
    | inr (p, w) ↦ ground (arith, w, e, k)
  ]

  -- After an AddNode that succeeds, a call for the node goes to the core that has taken it, in the
  -- state that AddNode has left; its answer is the core's.
  pub add_node-routed :
      (sel sel' : Selector S) (tag : String) (n : NodeInfo) (o : NodeOptions) (raw_ok : Bool)
      (f : S → S × Bool)
      → Distinct sel.cores
      → add_node core kind sel tag n o raw_ok ≡ (sel', true)
      → (key : String) × ((s : S) × (lookup key sel.cores ≡ some s)
          × (let s' = (core.add_node s tag (some n)).0 in
              routed core kind sel' tag f
              ≡ (record sel' { cores = insert key (f s').0 sel'.cores }, (f s').1)))
  add_node-routed sel sel' tag n o raw_ok f d h =
      let (valid, _, (key, _, (s, at, _, cores, nodes))) =
        subst (Added sel tag n o raw_ok) h (add_node-Added sel tag n o raw_ok d) in
      let s' = (core.add_node s tag (some n)).0 in
      let there : lookup tag sel'.nodes ≡ some key =
        ground (arith, nodes, lookup-insert_self tag key sel.nodes) in
      let taken : lookup key sel'.cores ≡ some s' =
        ground (arith, cores, lookup-insert_self key s' sel.cores) in
      (key, (s, at, routed_known sel' tag key f s' valid there taken))
