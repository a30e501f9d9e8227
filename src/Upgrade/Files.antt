-- ===== src/Upgrade/Files.antt =====
-- Copying the package: equal_file and copy_all of
-- cpp-sdk-http-bridge-linux/src/windows-upgrade.cpp. A read gives what is in the file; what copy_file
-- puts into the copy is given from outside.
pub mod Copies
use hik_hcnet_http_bridge.Common.{
  ℕ, zero, suc, ◌+◌, Bool, true, false, ◌&&◌, not, List, [], ◌∷◌, ◌++◌, Option, none, some, take,
  drop, length, ltb, ◌==◌, if◌then◌else◌, has_value,
}
use hik_hcnet_http_bridge.Text.{Bytes, equal}
use hik_hcnet_http_bridge.Error.{Result}
use hik_hcnet_http_bridge.Effect.{Effect, pure, ◌>>=◌, ◌>>◌, modify, lift, look}
use hik_hcnet_http_bridge.Upgrade.World.{World, Directory, require}

-- sizeof(xb)
abbrev pub buffer_size : ℕ
buffer_size = 65536

-- `while (x)`: a read that fills the buffer is followed by another, one that does not is the last.
unfoldable pub equal_from : ℕ → ℕ → Bytes → Bytes → Bool
unfolding equal
equal_from size zero x y = false
equal_from size (suc fuel) x y =
    let part = take size x in
    let rest = equal_from size fuel (drop size x) (drop size y) in
    if not (equal part (take (length part) y))
    then false
    else if ltb (length part) size
    then true
    else rest

unfoldable pub equal_file : Bytes → Bytes → Bool
unfolding equal_from
equal_file a b =
    if not (length a == length b) then false else equal_from buffer_size (suc (length a)) a b

-- What the outside says to a file of the package, by its path.
pub record CopyAnswers : Type 0 where
  pub link_free : Bytes → Bool
  pub regular : Bytes → Bool
  pub copied : Bytes → Result Bytes

abbrev pub add_file : Bytes → Bytes → World → World
add_file path content w = record w { staged_directory = with_file w.staged_directory }
  where
    with_file : Option Directory → Option Directory
    with_file none = none
    with_file (some d) = some (d ++ (path, content) ∷ [])

unfoldable pub copy_files : CopyAnswers → Directory → Effect World (Unit {0})
unfolding require equal_file
copy_files a [] = pure tt
copy_files a ((path, content) ∷ files) = do
  require (a.link_free path)
  require (a.regular path)
  copied ← lift (a.copied path)
  modify (add_file path copied)
  require (equal_file content copied)
  copy_files a files

-- copy_all(source, staged)
unfoldable pub copy_all : CopyAnswers → Directory → Effect World (Unit {0})
unfolding require copy_files
copy_all a source = do
  look (λ w. not (has_value w.staged_directory)) λ free. require free
  modify (λ w. record w { staged_directory = some [] })
  copy_files a source
