-- ===== src/Examples/Config.antt =====
-- A configuration file and what is loaded from it.
use hik_hcnet_http_bridge.Common.{refl, ◌≡◌, some, none, [], ◌∷◌, ◌++◌, pos}
use hik_hcnet_http_bridge.Text.{Bytes, codes}
use hik_hcnet_http_bridge.Error.{Returns, ok}
use hik_hcnet_http_bridge.Config.{Environment, load_config}
use hik_hcnet_http_bridge.Config.Json.{
  json_section, json_int, section_of, behind_first, strip, json_value, value_at, skip, trim,
  trim_end, take_until, int_of, stoi,
}
use hik_hcnet_http_bridge.Config.Ranges.{IsInRange, Is500, load_config-IsInRange}
use hik_hcnet_http_bridge.Text.Stoll.{stoll}
use hik_hcnet_http_bridge.Text.Decimal.{value_from}

abbrev environment : Environment
environment = record {
  located = λ path. codes "/opt/hik-bridge/config/" ++ path;
  variable = λ name. none;
}

abbrev quote : Bytes
quote = b'"' ∷ []

-- { "server": { "port": 8080 } }
abbrev file : Bytes
file =
    codes "{ "
    ++ (quote
        ++ (codes "server"
            ++ (quote
                ++ (codes ": { " ++ (quote ++ (codes "port" ++ (quote ++ codes ": 8080 } }")))))))

load_config-IsInRange_example : Returns IsInRange Is500 (load_config environment (some file))
load_config-IsInRange_example = load_config-IsInRange environment (some file)

json_int_run :
    json_int (json_section file (codes "server")) (codes "port") (pos 28080) ≡ ok (pos 8080)
unfolding json_section json_int section_of behind_first strip json_value value_at skip trim trim_end
    take_until int_of stoi stoll value_from
json_int_run = refl
