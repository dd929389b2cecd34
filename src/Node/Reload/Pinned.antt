-- ===== src/Node/Reload/Pinned.antt =====
-- A reload of a controller with a pinned name (Options.Name; node/reload.go keeps its limiter), and
-- the checks of its users afterwards (limiter/limiter.go).
use yunzes_node.Base.{
  ℕ, ◌≡◌, refl, inl, inr, String, Bool, true, false, Option, none, some, List, ◌==◌, Map, lookup,
  string_eq, arith, ==_refl, subst, ap, ◌∙◌,
}
use yunzes_node.Format.{user_tag}
use yunzes_node.Panel.{UserInfo, NodeInfo}
use yunzes_node.Core.Interface.{VCore}
use yunzes_node.Limiter.State.{Limiter}
use yunzes_node.Limiter.Registry.{Registry}
use yunzes_node.Limiter.Check.{check_limit}
use yunzes_node.Limiter.Check.Verdict.{check_limit_iff}
use yunzes_node.Node.Controller.{Controller}
use yunzes_node.Node.Reload.{
  reloaded, Reloaded, replace_alive, swap_limiter, rollback, commit, reload_node_config,
}
use yunzes_node.Node.Reload.Outcomes.{bring_up-elim, reload-elim, new_tag, new_key}

replace_alive-info :
    {B : Type 0} (l : Limiter B) (alive : Option (Map ℕ ℕ))
    → (replace_alive l alive).user_limit_info ≡ l.user_limit_info
unfolding replace_alive
replace_alive-info l none = refl
replace_alive-info l (some m) = refl

module _ {S B : Type 0} (core : VCore S) (c : Controller S B) (r : Registry B) (built_tag : String)
    (n : NodeInfo) (users : List UserInfo) (alive : Option (Map ℕ ℕ)) (cert_ok : Bool)
    (pinned : (c.name == "") ≡ false) where
  -- A result that is a success has the old key, the new users, and the old entries of all users.
  abbrev Kept : Reloaded S B → Type 0
  Kept (d, _, reloaded) =
      (d.runtime_key ≡ c.runtime_key)
      × (d.user_list ≡ users)
      × (d.limiter.user_limit_info ≡ c.limiter.user_limit_info)
  Kept (d, _, _) = Unit

  rollback-Kept : (r' : Registry B) (tag : String) (s : S) → Kept (rollback core c r' tag s)
  unfolding rollback
  rollback-Kept r' tag s = tt

  swap_limiter-pinned :
      (tag : String) → tag ≡ c.logical_tag → (swap_limiter core c r tag users alive).1 ≡ c.limiter
  unfolding swap_limiter
  swap_limiter-pinned tag e = ground (arith, e, ==_refl c.logical_tag)

  tag-pinned : new_tag core c r built_tag n users alive cert_ok ≡ c.logical_tag
  tag-pinned = rw pinned refl

  key-pinned : new_key core c r built_tag n users alive cert_ok ≡ c.runtime_key
  key-pinned = rw pinned refl

  commit-Kept :
      (r' : Registry B) (tag rk : String) (s : S) (l : Limiter B)
      → rk ≡ c.runtime_key
      → l ≡ c.limiter
      → Kept (commit core c r' tag rk n users alive s l)
  unfolding commit
  commit-Kept r' tag rk s l k e =
      (k, refl, replace_alive-info l alive ∙ ap (λ (x : Limiter B). x.user_limit_info) e)

  reload-Kept : Kept (reload_node_config core c r built_tag n users alive cert_ok)
  reload-Kept =
      reload-elim core c r built_tag n users alive cert_ok Kept tt (λ s. tt)
        (λ s.
          bring_up-elim core Kept c _ _ _ n users alive s _ (λ s'. rollback-Kept _ _ s')
            (λ s'. commit-Kept _ _ _ s' _ key-pinned (swap_limiter-pinned _ tag-pinned)))

  -- With a pinned name, a reload that succeeds makes the panel's new list the controller's, but a user
  -- of that list who had no limits on record before has none afterwards: each check of theirs that
  -- returns is a rejection.
  pub pinned_reload-rejects :
      (new_bucket : ℕ → B) (d : Controller S B) (r' : Registry B) (uuid raw_ip : String)
      (is_tcp no_ss_udp rejected : Bool) (now : ℕ) (l : Limiter B) (b : Option B)
      → lookup (user_tag c.runtime_key uuid) c.limiter.user_limit_info ≡ none
      → reload_node_config core c r built_tag n users alive cert_ok ≡ (d, r', reloaded)
      → check_limit new_bucket d.limiter (user_tag d.runtime_key uuid) raw_ip is_tcp no_ss_udp now
        ≡ some (l, b, rejected)
      → (d.user_list ≡ users) × (rejected ≡ true)
  pinned_reload-rejects new_bucket d r' uuid raw_ip is_tcp no_ss_udp rejected now l b h e k =
      let (key, list, info) = subst Kept e reload-Kept in
      let unknown : lookup (user_tag d.runtime_key uuid) d.limiter.user_limit_info ≡ none =
        rw (key, info) h in
      (
        list,
        (check_limit_iff new_bucket d.limiter l (user_tag d.runtime_key uuid) raw_ip is_tcp
              no_ss_udp rejected now b k).1
            (inr (inl unknown)),
      )
