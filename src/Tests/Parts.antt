-- ===== src/Tests/Parts.antt =====
-- Runs of the smaller parts, and the theorems applied to them.
use yunzes_node.Base.{
  ℕ, ◌+◌, ◌≤◌, ◌≡◌, ◌↔◌, ◌⊎◌, refl, String, true, false, Option, none, some, List, [], ◌∷◌, length,
  Returns, inl, inr, All, ◌==◌, string_eq, if◌then◌else◌, ok,
}
use yunzes_node.Panel.Client.{
  Client, Reply, Decoders, Answer, check_response, has_intervals, read_node, get_node_info,
}
use yunzes_node.Panel.Client.News.{poll, get_node_info_quiet}
use yunzes_node.Json5.{
  line_comment, block_comment, if_line_comment, if_block_comment, consume_comment, skip_string,
  after_comma, round, prep_from, prep,
}
use yunzes_node.Json5.Blanked.{Blanks, prep-Blanks}
use yunzes_node.Tasks.{
  new_task, Event, start, check_start, fire, execute, execute_closing, close, on_start, has_closed,
  enter, on_check_start, on_fire, on_fire_lost, arm, checked_execute, on_execute,
  on_execute_closing, free_step, on_close, step, run,
}
use yunzes_node.Tasks.Closed.{close_ends}
use yunzes_node.Format.Cipher.{HasKey, validate_shadowsocks_cipher, validate_shadowsocks_cipher_iff}
use yunzes_node.Counter.{TrafficStorage}
use yunzes_node.Counter.Conns.{
  Move, by_buffer, by_packet, apply_all, read_all, sum_up, sum_down, counts_lem,
}

program : Unit {0}
unfolding line_comment block_comment if_line_comment if_block_comment consume_comment skip_string
    after_comma round prep_from prep on_start has_closed enter on_check_start on_fire on_fire_lost
    arm checked_execute on_execute on_execute_closing on_close free_step step run
program = tt

-- `[1,/* */]`: the comma and the comment are blanked.
trailing_comma :
    prep (91 ∷ 49 ∷ 44 ∷ 47 ∷ 42 ∷ 32 ∷ 42 ∷ 47 ∷ 93 ∷ [])
    ≡ some (91 ∷ 49 ∷ 32 ∷ 32 ∷ 32 ∷ 32 ∷ 32 ∷ 32 ∷ 93 ∷ [])
unfolding program
trailing_comma = refl

-- `/*a*/`
block_ends : prep (47 ∷ 42 ∷ 97 ∷ 42 ∷ 47 ∷ []) ≡ some (32 ∷ 32 ∷ 32 ∷ 32 ∷ 32 ∷ [])
unfolding program
block_ends = refl

-- `/* **/1`: the two stars hide the end of the comment, and the second one stays.
two_stars :
    prep (47 ∷ 42 ∷ 32 ∷ 42 ∷ 42 ∷ 47 ∷ 49 ∷ []) ≡ some (32 ∷ 32 ∷ 32 ∷ 32 ∷ 42 ∷ 32 ∷ 32 ∷ [])
unfolding program
two_stars = refl

prep-Blanks_example :
    Returns (λ t. Blanks (91 ∷ 44 ∷ 93 ∷ []) t × (length t ≡ 3)) (prep (91 ∷ 44 ∷ 93 ∷ []))
prep-Blanks_example = prep-Blanks (91 ∷ 44 ∷ 93 ∷ [])

abbrev begun : List Event
begun = start true ∷ check_start ∷ execute false ∷ []

-- Execute closes its own task, and no close from outside comes through.
self_closed :
    (run new_task (start true ∷ check_start ∷ execute_closing ∷ close ∷ [])).running ≡ true
unfolding program
self_closed = refl

close_ends_example :
    ((run (on_close (run new_task begun)) (fire ∷ execute false ∷ [])).running ≡ false)
    × ((run (on_close (run new_task begun)) (fire ∷ execute false ∷ [])).runs
        ≤ (run new_task begun).runs + length (run new_task begun).waiting)
close_ends_example = close_ends (run new_task begun) (fire ∷ execute false ∷ []) (tt, (tt, tt))

-- A key by its length in characters.
abbrev decoded : String → Option ℕ
decoded s = if s == "k" then some 16 else none

validate_shadowsocks_cipher_iff_example :
    (validate_shadowsocks_cipher decoded "2022-blake3-aes-128-gcm" "k" ≡ ok tt)
    ↔ ((false ≡ true) ⊎ ((true ≡ true) × HasKey decoded "2022-blake3-aes-128-gcm" "k"))
validate_shadowsocks_cipher_iff_example =
    validate_shadowsocks_cipher_iff decoded "2022-blake3-aes-128-gcm" "k"

abbrev storage : TrafficStorage
storage = record { up = 5; down = 0 }

abbrev moves : List Move
moves = by_buffer (some 3) none ∷ by_packet none (some 2) ∷ []

counts_lem_example :
    ((apply_all storage moves).up ≡ 5 + sum_up moves)
    × ((apply_all storage moves).down ≡ 0 + sum_down moves)
    × ((read_all storage 3 (4 ∷ [])).up ≡ 4)
counts_lem_example = counts_lem storage moves 3 (4 ∷ [])

-- Decoders that know only the text "{}", for a node without intervals.
abbrev decoders : Decoders
decoders = record {
  envelope = λ s.
      if s == "{}" then some (record { basic = none; protocol = "vmess"; config = "" }) else none;
  vless = λ _. none;
  vmess = λ _. none;
  shadowsocks = λ _. none;
  trojan = λ _. none;
  anytls = λ _. none;
  tuic = λ _. none;
  hysteria2 = λ _. none;
}

abbrev new_client : Client
new_client = record { node_etag = ""; response_body_hash = "" }

abbrev reply : ℕ → String → Reply
reply status body = record { failed = false; status = status; body = body; etag = "e" }

reads_nil : read_node decoders (reply 200 "{}") ≡ Answer.panic
unfolding read_node check_response has_intervals
reads_nil = refl

fails_once : (get_node_info (λ s. s) decoders new_client (reply 500 "down")).1 ≡ Answer.failure
unfolding get_node_info read_node check_response
fails_once = refl

get_node_info_quiet_example :
    let c = (get_node_info (λ s. s) decoders new_client (reply 500 "down")).0 in
    ((poll (λ s. s) decoders c (reply 304 "" ∷ reply 500 "down" ∷ [])).0 ≡ c)
    × All
        (λ a. a ≡ Answer.unchanged)
        (poll (λ s. s) decoders c (reply 304 "" ∷ reply 500 "down" ∷ [])).1
get_node_info_quiet_example =
    get_node_info_quiet (λ s. s) decoders new_client (reply 500 "down")
      (reply 304 "" ∷ reply 500 "down" ∷ []) refl (inl refl, (inr refl, tt))
