-- ===== src/Upgrade/Snapshots.antt =====
-- What the upgrade tool accepts as an installed service: at, managed_pe, identify and snapshot of
-- cpp-sdk-http-bridge-linux/src/windows-upgrade.cpp. The bytes of the program, the words of its command
-- and the state of the service are given from outside; a wide character is its code.
use hik_hcnet_http_bridge.Common.{
  ℕ, ◌+◌, ◌-◌, ◌*◌, ◌%◌, ◌^◌, Bool, ◌&&◌, ◌||◌, not, List, [], ◌∷◌, Option, none, some, take, drop,
  length, leb, ◌==◌, if◌then◌else◌,
}
use hik_hcnet_http_bridge.Text.{Bytes, codes, equal}
use hik_hcnet_http_bridge.Error.{Result, ok, err, other_exception, ◌>>=◌, ◌>>◌}
use hik_hcnet_http_bridge.Mp4.{starts_with}
use hik_hcnet_http_bridge.Upgrade.World.{ServiceName, Kind, native, managed, Registration, Snapshot}
use hik_hcnet_http_bridge.Upgrade.Verify.{required}

abbrev pub little_endian : Bytes → ℕ
little_endian [] = 0
little_endian (b ∷ bs) = b + 256 * little_endian bs

-- at<T>, for a type of `size` bytes
unfoldable pub at : ℕ → Bytes → ℕ → Result Bytes
at size bytes offset =
    if leb offset (length bytes) && leb size (length bytes - offset)
    then ok (take size (drop offset bytes))
    else err other_exception

unfoldable pub managed_pe : Bytes → Result Bool
unfolding at
managed_pe bytes = do
  signature ← at 2 bytes 0
  required (little_endian signature == 0x5a4d)
  header ← at 4 bytes 0x3c
  let pe = little_endian header
  nt ← at 4 bytes pe
  required (little_endian nt == 0x4550)
  let optional = (pe + 4) % 2 ^ 32 + 20
  kind ← at 2 bytes optional
  let magic = little_endian kind
  required (magic == 0x10b || magic == 0x20b)
  entry ← at 8 bytes (optional + (if magic == 0x10b then 96 else 112) + 14 * 8)
  ok (not (little_endian (take 4 entry) == 0))

-- towlower, of the letters that the compared names have
unfoldable pub lower : Bytes → Bytes
lower [] = []
lower (c ∷ cs) = (if leb b'A' c && leb c b'Z' then c + 32 else c) ∷ lower cs

unfoldable pub contains_text : Bytes → Bytes → Bool
contains_text text [] = starts_with text []
contains_text text (c ∷ cs) = starts_with text (c ∷ cs) || contains_text text cs

-- args[1]
abbrev pub mode_of : List Bytes → Option Bytes
mode_of (program ∷ mode ∷ rest) = some mode
mode_of _ = none

abbrev pub is_bridge_name : Bytes → Bool
is_bridge_name name =
    equal name (codes "hik-sdk-http-bridge.exe") || equal name (codes "hiksdkhttpbridge.exe")

unfoldable pub identify_mode : Bytes → Bytes → Option Bytes → Result Kind
unfolding managed_pe lower contains_text
identify_mode name program none = err other_exception
identify_mode name program (some mode) = do
  is_managed ← managed_pe program
  if is_managed then (do required (equal (lower mode) (codes "service-run")); ok managed) else (do
    required (equal name (codes "hik-sdk-http-bridge.exe") && equal (lower mode) (codes "service"))
    required (contains_text (codes "hik-sdk-http-bridge") program)
    ok native)

-- The file name of the program, its bytes, and the words of the command.
unfoldable pub identify : Bytes → Bytes → List Bytes → Result Kind
unfolding identify_mode lower
identify file_name program words = do
  required (is_bridge_name (lower file_name))
  identify_mode (lower file_name) program (mode_of words)

-- What the system answers: whether the calls that query the service succeed, whether it is running or
-- stopped and nothing in between, the words of its command, whether the first is an absolute path and
-- one without links, and the program at that path.
pub record SnapshotAnswers : Type 0 where
  pub queried : Bool
  pub stable : Bool
  pub words : List Bytes
  pub absolute : Bool
  pub link_free : Bool
  pub file_name : Bytes
  pub program : Bytes

-- SERVICE_WIN32_OWN_PROCESS
abbrev pub own_process : ℕ
own_process = 16

abbrev pub is_system_account : Bytes → Bool
is_system_account account =
    equal account (codes "localsystem")
    || (equal account (codes "nt authority\\localservice")
        || equal account (codes "nt authority\\networkservice"))

unfoldable pub snapshot_found : SnapshotAnswers → ServiceName → Registration → Result Snapshot
unfolding identify lower
snapshot_found a name r = do
  required a.queried
  required a.stable
  required a.absolute
  required a.link_free
  kind ← identify a.file_name a.program a.words
  required (r.settings.config.type == own_process)
  required (is_system_account (lower r.settings.config.account))
  ok (record { name = name; kind = kind; settings = r.settings; running = r.running })

unfoldable pub snapshot : SnapshotAnswers → ServiceName → Option Registration → Result Snapshot
unfolding snapshot_found
snapshot a name none = err other_exception
snapshot a name (some r) = snapshot_found a name r
