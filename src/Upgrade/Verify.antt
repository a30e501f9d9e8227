-- ===== src/Upgrade/Verify.antt =====
-- The check of the new service: json_string and verify of
-- cpp-sdk-http-bridge-linux/src/windows-upgrade.cpp. A regular expression of the source is spelled out;
-- what a turn of the loop sees is given from outside.
use hik_hcnet_http_bridge.Common.{
  ℕ, Bool, true, false, ◌&&◌, not, List, [], ◌∷◌, Option, none, some, ◌==◌, if◌then◌else◌,
}
use hik_hcnet_http_bridge.Text.{Bytes, codes, equal, is_space}
use hik_hcnet_http_bridge.Error.{Result, ok, err, other_exception, ◌>>=◌, ◌>>◌}
use hik_hcnet_http_bridge.Config.Json.{skip, strip, chained, or_later, quoted_name}
use hik_hcnet_http_bridge.Upgrade.World.{Kind, native, managed, Snapshot}

abbrev pub onto : ℕ → Option Bytes → Option Bytes
onto c none = none
onto c (some value) = some (c ∷ value)

-- ([^"]*)"
unfoldable pub up_to_quote : Bytes → Option Bytes
up_to_quote [] = none
up_to_quote (c ∷ cs) = let value = onto c (up_to_quote cs) in if c == b'"' then some [] else value

-- "key"\s*:\s*"([^"]*)" at the start of the text
unfoldable pub match_field : Bytes → Bytes → Option Bytes
unfolding skip strip up_to_quote
match_field key text = chained (strip (quoted_name key) text) λ a.
    chained (strip (b':' ∷ []) (skip is_space a))
      λ b. chained (strip (b'"' ∷ []) (skip is_space b)) up_to_quote

-- std::regex_search: the first place where it matches.
unfoldable pub search_field : Bytes → Bytes → Option Bytes
unfolding match_field
search_field key [] = match_field key []
search_field key (c ∷ cs) = or_later (match_field key (c ∷ cs)) (search_field key cs)

abbrev pub required_match : Option Bytes → Result Bytes
required_match none = err other_exception
required_match (some value) = ok value

unfoldable pub json_string : Bytes → Bytes → Result Bytes
unfolding search_field
json_string json key = required_match (search_field key json)

-- if (!test) throw std::runtime_error(...)
abbrev pub required : Bool → Result (Unit {0})
required true = ok tt
required false = err other_exception

-- What a turn of the loop sees; a call that throws gives its exception.
pub record VerifyTurn : Type 0 where
  pub current : Result Snapshot
  pub points_to_target : Bool
  pub process_known : Bool
  pub owns_port : Bool
  pub health : Result Bytes
  pub version : Result Bytes

abbrev pub is_native : Kind → Bool
is_native native = true
is_native managed = false

-- SERVICE_AUTO_START
abbrev pub auto_start : ℕ
auto_start = 2

abbrev pub starts_automatically : Snapshot → Bool
starts_automatically s =
    is_native s.kind && s.running && s.settings.config.start == auto_start && not s.settings.delayed

unfoldable pub verify_turn : Bytes → VerifyTurn → Result (Unit {0})
unfolding json_string
verify_turn expected t = do
  current ← t.current
  required (starts_automatically current)
  required t.points_to_target
  required t.process_known
  required t.owns_port
  health ← t.health
  status ← json_string health (codes "status")
  required (equal status (codes "ok"))
  sdk ← json_string health (codes "sdk")
  required (equal sdk (codes "hcnetsdk"))
  reply ← t.version
  version ← json_string reply (codes "version")
  required (equal version expected)

abbrev pub passed_or : Result (Unit {0}) → Result (Unit {0}) → Result (Unit {0})
passed_or (ok done) later = ok done
passed_or (err e) later = later

-- do { try ... } while: one turn for each that begins before the deadline, the first without a test.
unfoldable pub verify : Bytes → List VerifyTurn → Result (Unit {0})
unfolding verify_turn
verify expected [] = err other_exception
verify expected (t ∷ turns) = passed_or (verify_turn expected t) (verify expected turns)
