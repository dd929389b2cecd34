-- ===== src/Format.antt =====
-- The keys of common/format: runtime keys and per-user tags.
pub mod Cipher
use yunzes_node.Base.{String, ◌≡◌, ◌<>◌, append_cancel}

unfoldable pub runtime_key : String → String → String
runtime_key core_type logical_tag = core_type <> "|" <> logical_tag

unfoldable pub user_tag : String → String → String
user_tag tag uuid = tag <> "|" <> uuid

-- Under one runtime key two users never share a tag.
pub user_tag-injective : (tag u v : String) → user_tag tag u ≡ user_tag tag v → u ≡ v
unfolding user_tag
user_tag-injective tag u v h = append_cancel "|" u v (append_cancel tag ("|" <> u) ("|" <> v) h)
