-- ===== src/Examples/Quoting.antt =====
-- Command lines of Windows, on concrete inputs.
use hik_hcnet_http_bridge.Common.{refl, ◌≡◌, some, List, [], ◌∷◌, length}
use hik_hcnet_http_bridge.Config.Json.{skip}
use hik_hcnet_http_bridge.Text.{Bytes, codes}
use hik_hcnet_http_bridge.Quoting.{joined_by, quote_windows_argument, needs_quotes}
use hik_hcnet_http_bridge.Quoting.RoundTrip.{
  read_word, read_plain, read_argument, read_arguments, read_arguments-quote_windows_argument,
}

-- A path with a blank that ends with a backslash, and a text with a quote behind a backslash.
abbrev arguments : List Bytes
arguments = codes "C:\\My Files\\" ∷ codes "a\\\"b" ∷ codes "-c:v" ∷ []

read_arguments-quote_windows_argument_example :
    read_arguments (length arguments) (joined_by quote_windows_argument arguments) ≡ some arguments
read_arguments-quote_windows_argument_example =
    read_arguments-quote_windows_argument arguments (refl, (refl, (refl, tt)))

-- An empty argument is lost.
quote_windows_argument_empty :
    read_arguments 2 (joined_by quote_windows_argument ([] ∷ codes "x" ∷ []))
    ≡ some (codes "x" ∷ [])
unfolding read_arguments read_argument read_word read_plain skip joined_by quote_windows_argument
    needs_quotes
quote_windows_argument_empty = refl
