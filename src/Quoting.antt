-- ===== src/Quoting.antt =====
-- Quoting the arguments of a Windows command line: quote and the line of run in
-- cpp-sdk-http-bridge-linux/src/windows-upgrade.cpp, and quote_windows_argument with the lines that are
-- built from it in cpp-sdk-http-bridge-linux/src/main.cpp. A wide character is its code.
pub mod RoundTrip
use hik_hcnet_http_bridge.Common.{
  ℕ, zero, suc, ◌+◌, ◌*◌, Bool, true, false, ◌||◌, not, List, [], ◌∷◌, ◌++◌, ◌==◌, if◌then◌else◌,
}
use hik_hcnet_http_bridge.Text.{Bytes}

abbrev pub backslashes : ℕ → Bytes → Bytes
backslashes zero rest = rest
backslashes (suc n) rest = b'\\' ∷ backslashes n rest

-- The loop over the characters, behind so many backslashes that were not written yet.
unfoldable pub quote_from : ℕ → Bytes → Bytes
quote_from slashes [] = backslashes (slashes * 2) (b'"' ∷ [])
quote_from slashes (c ∷ cs) =
    let counted = quote_from (suc slashes) cs in
    let rest = quote_from 0 cs in
    if c == b'\\'
    then counted
    else backslashes (if c == b'"' then slashes * 2 + 1 else slashes) (c ∷ rest)

unfoldable pub quote : Bytes → Bytes
unfolding quote_from
quote value = b'"' ∷ quote_from 0 value

-- find_first_of(L" \t\"") finds something.
unfoldable pub needs_quotes : Bytes → Bool
needs_quotes [] = false
needs_quotes (c ∷ cs) = (c == 32 || (c == 9 || c == b'"')) || needs_quotes cs

unfoldable pub quote_windows_argument : Bytes → Bytes
unfolding needs_quotes quote
quote_windows_argument value = if not (needs_quotes value) then value else quote value

-- Each argument behind a blank.
unfoldable pub joined_by : (Bytes → Bytes) → List Bytes → Bytes
joined_by quoted [] = []
joined_by quoted (argument ∷ arguments) = 32 ∷ (quoted argument ++ joined_by quoted arguments)

-- The line of `run`, for a program other than cmd.exe.
unfoldable pub run_line : Bytes → List Bytes → Bytes
unfolding quote joined_by
run_line program arguments = quote program ++ joined_by quote arguments

-- The line of start_windows and run_windows_process.
unfoldable pub windows_line : Bytes → List Bytes → Bytes
unfolding quote_windows_argument joined_by
windows_line program arguments =
    quote_windows_argument program ++ joined_by quote_windows_argument arguments
